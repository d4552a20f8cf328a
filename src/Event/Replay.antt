-- ===== src/Event/Replay.antt =====
-- Counting and redelivery.
use vidra_search.Prelude.{
  ℕ, ◌+◌, Bool, ◌&&◌, ◌≡◌, List, [], ◌∷◌, length, length-append, arith, Bool-cases, inl, inr,
}
use vidra_search.Event.Types.{Envelope, Result, event_type, is_legacy_catalog_type}
use vidra_search.Event.Env.{Env}
use vidra_search.Event.Ingest.{
  Delivery, refused, duplicate, applied, apply_one, Batch, settle, step, run_batch,
}

abbrev pub total : Result → ℕ
total r = r.accepted + r.duplicates + length r.failed

total-settle :
    (env : Env) (ev : Envelope) (b : Batch) (d : Delivery)
    → total (settle env ev b d).res ≡ total b.res + 1
unfolding settle
total-settle env ev b (refused e) = omega (arith, length-append b.res.failed)
total-settle env ev b duplicate = omega arith
total-settle env ev b (applied o e db) = omega arith

total-step :
    (env : Env) (blocked : Bool) (b : Batch) (ev : Envelope)
    → total (step env blocked b ev).res ≡ total b.res + 1
unfolding step
total-step env blocked b ev =
    elim (Bool-cases (blocked && is_legacy_catalog_type (event_type ev.type))) [
      | inl e ↦ rw e (omega (arith, length-append b.res.failed))
      | inr e ↦ rw e (total-settle env ev b (apply_one env ev b.db))
    ]

pub total-run_batch :
    (env : Env) (blocked : Bool) (b : Batch) (events : List Envelope)
    → total (run_batch env blocked b events).res ≡ total b.res + length events
unfolding run_batch
total-run_batch env blocked b [] = omega arith
total-run_batch env blocked b (ev ∷ events) =
    omega (
      arith,
      total-run_batch env blocked (step env blocked b ev) events,
      total-step env blocked b ev,
    )
