-- ===== src/Ingester/Synced.antt =====
-- Which commits are shown as synced.
use backstitch.Prelude.{
  ℕ, suc, ◌<◌, ◌≤◌, ◌≡◌, refl, ap, ◌∙◌, Bool, ltb, true, Option-cases, ◌&&◌, ◌||◌, Option, none,
  some, List, [], ◌∷◌, ◌++◌, map, Str, Outcome, ok, >>=_steps, ok-injective, Eq, beq_refl, contains,
  All, inl, inr, Bool-cases, arith,
}
use mathlib.Core.Path.{subst}
use backstitch.Ingester.Summary.{CommitMetadata, CommitInfo}
use backstitch.Ingester.Listed.{
  Change, hashes, or_none, only_canonical, in_one_only, acked, commit_info, synced_until, is_on,
  list_commits, get_changes,
}

module _ {H : Type 0} ⦃eh : Eq H⦄ where
  All-contains_cons :
      (h : H) (hs : List H) (cs : List (Change H))
      → All (λ c. contains hs c.hash ≡ true) cs
      → All (λ c. contains (h ∷ hs) c.hash ≡ true) cs
  All-contains_cons h hs [] all = tt
  All-contains_cons h hs (c ∷ cs) all = (ground (arith, all.0), All-contains_cons h hs cs all.1)

  All-hashes : (cs : List (Change H)) → All (λ c. contains (hashes cs) c.hash ≡ true) cs
  All-hashes [] = tt
  All-hashes (c ∷ cs) =
      (rw (beq_refl c.hash) refl, All-contains_cons c.hash (hashes cs) cs (All-hashes cs))

  -- a hash of one of the documents
  abbrev IsKnown : List H → List H → H → Type 0
  IsKnown shadow canon h = contains shadow h || contains canon h ≡ true

  IsKnown-shadow :
      (shadow canon : List H) (cs : List (Change H))
      → All (λ c. contains shadow c.hash ≡ true) cs
      → All (λ c. IsKnown shadow canon c.hash) cs
  IsKnown-shadow shadow canon [] h = tt
  IsKnown-shadow shadow canon (c ∷ cs) h = (ground (arith, h.0), IsKnown-shadow shadow canon cs h.1)

  IsKnown-only_canonical :
      (shadow canon : List H) (cs : List (Change H))
      → All (λ c. contains canon c.hash ≡ true) cs
      → All (λ c. IsKnown shadow canon c.hash) (only_canonical shadow cs)
  IsKnown-only_canonical shadow canon [] h = tt
  IsKnown-only_canonical shadow canon (c ∷ cs) h = elim (Bool-cases (contains shadow c.hash)) [
    | inl old ↦ rw old (IsKnown-only_canonical shadow canon cs h.1)
    | inr new ↦ rw new (ground (arith, h.0), IsKnown-only_canonical shadow canon cs h.1)
  ]

  -- A commit stands in a list, and the server has acknowledged it or one behind it.
  abbrev pub IsAcknowledged : Option (List H) → List H → H → Type 0
  IsAcknowledged last_acked_heads all h =
      (before after : List H) × ((all ≡ before ++ h ∷ after)
        × ((a : H) × ((contains (h ∷ after) a ≡ true) × (acked last_acked_heads a ≡ true))))

  shift : (before after : List H) (h : H) → before ++ h ∷ after ≡ (before ++ h ∷ []) ++ after
  shift [] after h = refl
  shift (x ∷ before) after h = ap (λ l. x ∷ l) (shift before after h)

abbrev pub commit_hashes : {D H : Type 0} → List (CommitInfo D H) → List H
commit_hashes [] = []
commit_hashes (c ∷ changes) = c.hash ∷ commit_hashes changes

module _ {D H : Type 0} ⦃ed : Eq D⦄ ⦃eh : Eq H⦄ where
  -- What a commit that is listed has, of a branch whose documents have the hashes `shadow` and `canon`
  -- and together those of `all`, in the order in which the changes are gone through.
  pub record IsSyncedCommit (branch : D) (shadow canon all : List H)
      (last_acked_heads : Option (List H)) (info : CommitInfo D H) : Type 0 where
    pub in_both : info.synced ≡ true → contains shadow info.hash && contains canon info.hash ≡ true
    pub acknowledged : info.synced ≡ true → IsAcknowledged last_acked_heads all info.hash
    pub on_branch :
        (metadata : CommitMetadata D H) × ((info.metadata ≡ some metadata)
          × (metadata.branch_id ≡ some branch))

  branch_of_is_on :
      (branch : D) (metadata : Option (CommitMetadata D H))
      → is_on branch metadata ≡ true
      → (m : CommitMetadata D H) × ((metadata ≡ some m) × (m.branch_id ≡ some branch))
  branch_of_is_on branch none h = absurd (cc)
  branch_of_is_on branch (some m) h = elim (Option-cases m.branch_id) [
    | inl absent ↦ absurd (cc (rw absent at h))
    | inr (id, found) ↦ (m, (refl, found ∙ ap some ((ed.beq_iff id branch).0 (rw found at h))))
  ]

  -- a position that an acknowledged change set stands at or before that change
  acked_behind :
      (last_acked_heads : Option (List H)) (i until : ℕ) (changes : List (CommitInfo D H))
      → until < synced_until last_acked_heads i until changes
      → (a : H) × ((contains (commit_hashes changes) a ≡ true) × (acked last_acked_heads a ≡ true))
  unfolding synced_until
  acked_behind last_acked_heads i until [] h = absurd (omega arith)
  acked_behind last_acked_heads i until (c ∷ changes) h =
      elim (Bool-cases (acked last_acked_heads c.hash)) [
        | inl found ↦ (c.hash, (rw (beq_refl c.hash) refl, found))
        | inr other ↦
            let (a, (here, is_acked)) =
              acked_behind last_acked_heads (suc i) until changes (rw (other, synced_until) at h) in
            (a, (ground (arith, here), is_acked))
      ]

  commit_hashes-map :
      (parse : Str → Option (CommitMetadata D H)) (cs : List (Change H))
      → hashes cs ≡ commit_hashes (map (commit_info parse) cs)
  commit_hashes-map parse [] = refl
  commit_hashes-map parse (c ∷ cs) = ap (λ l. c.hash ∷ l) (commit_hashes-map parse cs)

  All-commit_info :
      (parse : Str → Option (CommitMetadata D H)) (shadow canon : List H) (cs ds : List (Change H))
      → All (λ c. IsKnown shadow canon c.hash) cs
      → All (λ c. IsKnown shadow canon c.hash) ds
      → All
          (λ (info : CommitInfo D H). IsKnown shadow canon info.hash)
          (map (commit_info parse) (cs ++ ds))
  All-commit_info parse shadow canon [] [] hc hd = tt
  All-commit_info parse shadow canon [] (d ∷ ds) hc hd =
      (hd.0, All-commit_info parse shadow canon [] ds tt hd.1)
  All-commit_info parse shadow canon (c ∷ cs) ds hc hd =
      (hc.0, All-commit_info parse shadow canon cs ds hc.1 hd)

  module _ (summarize : CommitInfo D H → Outcome (Unit {0}) (Option Str)) (branch : D)
      (shadow canon all : List H) (last_acked_heads : Option (List H)) (until : ℕ) where
    -- what is known at the i-th change, `u` the position that the changes before it set
    pub record IsAt (before : List H) (i u : ℕ) (changes : List (CommitInfo D H)) : Type 0 where
      pub split : all ≡ before ++ commit_hashes changes
      pub low : u ≤ i
      pub sets : until ≡ synced_until last_acked_heads i u changes

    IsAcknowledged-at :
        (before : List H) (i u : ℕ) (c : CommitInfo D H) (changes : List (CommitInfo D H))
        → IsAt before i u (c ∷ changes)
        → i < until
        → IsAcknowledged last_acked_heads all c.hash
    IsAcknowledged-at before i u c changes at_i synced = (
      before,
      commit_hashes changes,
      (
        at_i.split,
        acked_behind last_acked_heads i u (c ∷ changes)
            (subst (λ n. u < n) at_i.sets (le_lt at_i.low synced)),
      ),
    )
      where
        le_lt : {a b d : ℕ} → a ≤ b → b < d → a < d
        le_lt h k = omega arith

    IsAt-suc :
        (before : List H) (i u : ℕ) (c : CommitInfo D H) (changes : List (CommitInfo D H))
        → IsAt before i u (c ∷ changes)
        → (v : ℕ) × IsAt (before ++ c.hash ∷ []) (suc i) v changes
    unfolding synced_until
    IsAt-suc before i u c changes at_i = elim (Bool-cases (acked last_acked_heads c.hash)) [
      | inl found ↦ (
        suc i,
        record {
          split = at_i.split ∙ shift before (commit_hashes changes) c.hash;
          low = omega arith;
          sets = rw (found, synced_until) at at_i.sets;
        },
      )
      | inr other ↦ (
        u,
        record {
          split = at_i.split ∙ shift before (commit_hashes changes) c.hash;
          low = le_suc at_i.low;
          sets = rw (other, synced_until) at at_i.sets;
        },
      )
    ]
      where
        le_suc : {a b : ℕ} → a ≤ b → a ≤ suc b
        le_suc h = omega arith

    All-list_commits :
        (before : List H) (i u : ℕ) (changes infos : List (CommitInfo D H))
        → All (λ (info : CommitInfo D H). IsKnown shadow canon info.hash) changes
        → IsAt before i u changes
        → list_commits summarize branch (in_one_only shadow canon) until i changes ≡ ok infos
        → All (IsSyncedCommit branch shadow canon all last_acked_heads) infos
    unfolding list_commits
    All-list_commits before i u [] infos known at_i h =
        subst (All (IsSyncedCommit branch shadow canon all last_acked_heads)) (ok-injective h) tt
    All-list_commits before i u (change ∷ changes) infos known at_i h =
        let (v, at_next) = IsAt-suc before i u change changes at_i in
        elim (Bool-cases (is_on branch change.metadata)) [
          | inr off ↦
              All-list_commits (before ++ change.hash ∷ []) (suc i) v changes infos known.1 at_next
                (rw (off, list_commits) at h)
          | inl here ↦
              let first = >>=_steps (summarize change) _ infos (rw (here, list_commits) at h) in
              let second =
                >>=_steps
                  (list_commits summarize branch (in_one_only shadow canon) until (suc i) changes) _
                  infos first.1.1 in
              subst (All (IsSyncedCommit branch shadow canon all last_acked_heads))
                (ok-injective second.1.1)
                (
                  record {
                    in_both = λ s. ground (arith, known.0, s);
                    acknowledged =
                        λ s. IsAcknowledged-at before i u change changes at_i (synced_lt _ _ _ s);
                    on_branch = branch_of_is_on branch change.metadata here;
                  },
                  All-list_commits (before ++ change.hash ∷ []) (suc i) v changes second.0 known.1
                      at_next second.1.0,
                )
        ]
      where
        synced_lt : (a b : ℕ) (c : Bool) → ltb a b && c ≡ true → a < b
        synced_lt a b c h = ground arith

  -- Each commit that the ingester lists has metadata with the branch that is checked out; one
  -- that it shows as synced is in the shadow and in the canonical document, and the server has
  -- acknowledged it or a change that stands behind it in the changes of the shadow document
  -- followed by those of the canonical one only.
  pub get_changes-IsSyncedCommit :
      (summarize : CommitInfo D H → Outcome (Unit {0}) (Option Str))
      (parse : Str → Option (CommitMetadata D H)) (branch : D) (last_acked_heads : Option (List H))
      (shadow canonical : Option (List (Change H))) (infos : List (CommitInfo D H))
      → get_changes summarize parse (some branch) last_acked_heads shadow canonical ≡ ok infos
      → All
          (IsSyncedCommit branch
            (hashes (or_none shadow))
            (hashes (or_none canonical))
            (hashes
              (or_none shadow ++ only_canonical (hashes (or_none shadow)) (or_none canonical)))
            last_acked_heads)
          infos
  unfolding get_changes
  get_changes-IsSyncedCommit summarize parse branch last_acked_heads shadow canonical infos h =
      let sh : List H = hashes (or_none shadow) in
      let ch : List H = hashes (or_none canonical) in
      let merged : List (Change H) = or_none shadow ++ only_canonical sh (or_none canonical) in
      All-list_commits summarize branch sh ch (hashes merged) last_acked_heads _ [] 0 0
        (map (commit_info parse) merged) infos
        (All-commit_info parse sh ch (or_none shadow) (only_canonical sh (or_none canonical))
          (IsKnown-shadow sh ch (or_none shadow) (All-hashes (or_none shadow)))
          (IsKnown-only_canonical sh ch (or_none canonical) (All-hashes (or_none canonical))))
        (record { split = commit_hashes-map parse merged; low = omega arith; sets = refl }) h
