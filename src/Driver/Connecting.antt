-- ===== src/Driver/Connecting.antt =====
-- How long the driver waits for the server.
use backstitch.Prelude.{
  ℕ, suc, ◌+◌, ◌≡◌, ◌<◌, ap, ◌∙◌, Bool-cases, inl, inr, Option, none, some, List, [], ◌∷◌, Bool,
  true, false, ltb, leb, arith, if◌then◌else◌,
}
use backstitch.Driver.{
  RemoteConnectionEvent, connected, failed, cancelled, await_connection, ensure_server_connection,
}

-- the events before the first that is no failure
abbrev pub failures : List RemoteConnectionEvent → ℕ
failures [] = 0
failures (failed ∷ events) = suc (failures events)
failures (connected username ∷ events) = 0
failures (cancelled ∷ events) = 0

abbrev pub after_failures : List RemoteConnectionEvent → Option Bool
after_failures [] = none
after_failures (failed ∷ events) = after_failures events
after_failures (connected username ∷ events) = some true
after_failures (cancelled ∷ events) = some false

await_connection-failures :
    (retries attempt : ℕ) (events : List RemoteConnectionEvent)
    → attempt < suc retries
    → await_connection retries attempt events
      ≡ (if leb (attempt + failures events) retries then after_failures events else some false)
unfolding await_connection
await_connection-failures retries attempt [] h = ground arith
await_connection-failures retries attempt (connected username ∷ events) h = ground arith
await_connection-failures retries attempt (cancelled ∷ events) h = ground arith
await_connection-failures retries attempt (failed ∷ events) h =
    elim (Bool-cases (ltb attempt retries)) [
      | inl again ↦ rw again (
          await_connection-failures retries (attempt + 1) events (ground arith)
          ∙ ap (λ n. if leb n retries then after_failures events else some false) (omega arith))
      | inr last ↦ rw last (ground arith)
    ]

-- Without a connection at the start: up to `retries` failures are passed over, and the first event
-- behind them decides, true if it is a connection; one failure more gives false.
pub ensure_server_connection-failures :
    (retries : ℕ) (events : List RemoteConnectionEvent)
    → ensure_server_connection false retries events
      ≡ (if leb (failures events) retries then after_failures events else some false)
unfolding ensure_server_connection
ensure_server_connection-failures retries events =
    ground (arith, await_connection-failures retries 0 events)
