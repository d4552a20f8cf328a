-- ===== src/Event/Allowed.antt =====
-- Which statements an event may run, by its type and payload.
use vidra_search.Prelude.{
  String, Bool, true, false, not, ◌&&◌, ◌≡◌, refl, Option, none, some, List, [], ◌∷◌, arith,
  is_some,
}
use vidra_search.Store.Rows.{Uuid, Document}
use vidra_search.Store.Stmt.{
  Stmt, upsert_document, suppress_document, update_document_stats, update_channel_documents,
  suppress_channel_documents, suppress_owner_documents, restore_owner_documents,
  upsert_service_config, insert_behavior_event, append_query_log, upsert_user_search_history,
  upsert_watch_projection, purge_user_watch_projection, delete_user_search_history,
  delete_query_log_for_user, delete_behavior_events_for_user, savepoint, insert_inbox_event,
  release,
}
use vidra_search.Store.Query.{Query, ok, pure, ◌>>◌}
use vidra_search.Store.Trace.{
  Issues, Issues-pure, Issues-exec, Issues-bind, Issues-bind-lift, Issues-when, issue_rules,
}
use vidra_search.Event.Types.{
  EventType, Envelope, event_type, is_legacy_catalog_type, is_behavioral, video_upsert,
  video_suppress, video_stats, channel_upsert, channel_delete, user_suppress, user_history_del,
  config_updated, reconcile_begin, reconcile_page, reconcile_end, search_submitted,
  search_sugg_shown, search_sugg_selected, search_result_clicked, video_impression,
  video_play_started, video_watch_progress, video_completed,
}
use vidra_search.Event.Payloads.{
  VideoDoc, ConfigValue, SearchSubmitted, PlayStarted, VideoCompleted, UserHistoryDeleted,
}
use vidra_search.Event.Env.{Env}
use vidra_search.Event.HistoryRule.{
  search_history_rule, watch_projection_rule, play_allowed, completed_allowed,
}
use vidra_search.Event.Documents.{
  document_of, apply_video_upsert, apply_page, apply_settings, apply_history_deleted,
}
use vidra_search.Event.Behavior.{
  BehaviorFields, RedisEffect, for_user, insert_behavior, upsert_projection, apply_submitted,
  apply_play, apply_completed, behave, apply_behavioral,
}
use vidra_search.Event.Dispatch.{Applied, set_unlisted, apply_other, dispatch_as}

-- A document is hidden exactly when it has a reason.
abbrev pub IsConsistent : Document → Type 0
IsConsistent d = d.eligible ≡ not (is_some d.suppressed_reason)

-- `type` and `payload` are the event's.
abbrev pub Allowed : Env → EventType → String → Stmt → Type 0
Allowed env type payload (upsert_document d) = (is_legacy_catalog_type type ≡ true) × IsConsistent d
Allowed env type payload (suppress_document v reason) =
    (is_legacy_catalog_type type ≡ true) × (is_some reason ≡ true)
Allowed env type payload (update_document_stats v views likes) = Unit
Allowed env type payload (update_channel_documents c handle name owner) =
    is_legacy_catalog_type type ≡ true
Allowed env type payload (suppress_channel_documents c reason) =
    (is_legacy_catalog_type type ≡ true) × (is_some reason ≡ true)
Allowed env type payload (suppress_owner_documents o reason) = is_legacy_catalog_type type ≡ true
Allowed env type payload (restore_owner_documents o reason) = is_legacy_catalog_type type ≡ true
Allowed env type payload (upsert_service_config k v) = type ≡ config_updated
Allowed env type payload (insert_behavior_event e) = is_behavioral type ≡ true
Allowed env type payload (append_query_log e) = type ≡ search_submitted
Allowed env type payload (upsert_user_search_history u q display at) =
    search_history_rule env.decode type payload ≡ true
Allowed env type payload (upsert_watch_projection u v delta half_life) =
    watch_projection_rule env.decode type payload ≡ true
Allowed env type payload (purge_user_watch_projection u) = type ≡ user_history_del
Allowed env type payload (delete_user_search_history u) = type ≡ user_history_del
Allowed env type payload (delete_query_log_for_user u) = type ≡ user_history_del
Allowed env type payload (delete_behavior_events_for_user u) = type ≡ user_history_del
Allowed env type payload savepoint = Unit
Allowed env type payload (insert_inbox_event r) = Unit
Allowed env type payload release = Unit
Allowed env type payload _ = ⊥

document_of-IsConsistent :
    (env : Env) (v : VideoDoc) (run : Option Uuid) → IsConsistent (document_of env v run)
unfolding document_of
document_of-IsConsistent env v run = ground arith

module _ (env : Env) (S : Stmt → Type 0) where
  Issues-page :
      ((d : Document) → IsConsistent d → S (upsert_document d))
      → (vs : List VideoDoc) (run : Uuid) → Issues env.server S (apply_page env vs run)
  unfolding apply_page apply_video_upsert
  Issues-page h [] run = search issue_rules
  Issues-page h (v ∷ vs) run =
      let d = document_of env v (some run) in
      let s = h d (document_of-IsConsistent env v (some run)) in
      let rest = Issues-page h vs run in search issue_rules

  Issues-settings :
      ((k v : String) → S (upsert_service_config k v))
      → (settings : List (String × ConfigValue)) → Issues env.server S (apply_settings env settings)
  unfolding apply_settings
  Issues-settings h [] = search issue_rules
  Issues-settings h ((k, v) ∷ rest) = let later = Issues-settings h rest in search issue_rules

  Issues-for_user :
      (b : Bool) (u : Option Uuid) (write : Uuid → Query (Unit {0}))
      → ((v : Uuid) → b ≡ true → u ≡ some v → Issues env.server S (write v))
      → Issues env.server S (for_user b u write)
  unfolding for_user
  Issues-for_user b none write h = Issues-pure tt
  Issues-for_user b (some v) write h = Issues-when b (write v) (λ e. h v e refl)

-- What the personal events run, each of its own type.
module _ (env : Env) (ev : Envelope) where
  history_consent :
      (p : SearchSubmitted) (b : Bool) (u : Uuid)
      → env.decode.search_submitted ev.payload ≡ ok p
      → (p.allow_history && b) ≡ true
      → p.user_id ≡ some u
      → search_history_rule env.decode search_submitted ev.payload ≡ true
  unfolding search_history_rule
  history_consent p b u h e n = rw (h, search_history_rule) (ground arith)

  play_consent :
      (p : PlayStarted) (u : Uuid)
      → env.decode.play_started ev.payload ≡ ok p
      → play_allowed p ≡ true
      → p.user_id ≡ some u
      → watch_projection_rule env.decode video_play_started ev.payload ≡ true
  unfolding watch_projection_rule
  play_consent p u h e n = rw (h, watch_projection_rule) (ground arith)

  completed_consent :
      (p : VideoCompleted) (u : Uuid)
      → env.decode.video_completed ev.payload ≡ ok p
      → completed_allowed p ≡ true
      → p.user_id ≡ some u
      → watch_projection_rule env.decode video_completed ev.payload ≡ true
  unfolding watch_projection_rule
  completed_consent p u h e n = rw (h, watch_projection_rule) (ground arith)

  Issues-submitted :
      (p : SearchSubmitted)
      → env.decode.search_submitted ev.payload ≡ ok p
      → Issues env.server (Allowed env search_submitted ev.payload) (apply_submitted env ev p)
  unfolding apply_submitted insert_behavior is_behavioral
  Issues-submitted p h = Issues-bind _ _ (Issues-exec _ refl) λ _.
      Issues-bind _ _ (Issues-when _ _ λ _. Issues-exec _ refl) λ _.
        Issues-bind _ _
          (Issues-for_user env _ _ _ _ λ u e n. Issues-exec _ (history_consent p _ u h e n))
          λ _. Issues-pure _

  Issues-play :
      (p : PlayStarted)
      → env.decode.play_started ev.payload ≡ ok p
      → Issues env.server (Allowed env video_play_started ev.payload) (apply_play env ev p)
  unfolding apply_play insert_behavior upsert_projection is_behavioral
  Issues-play p h = Issues-bind _ _ (Issues-exec _ refl) λ _.
      Issues-bind _ _ (Issues-for_user env _ _ _ _ λ u e n. Issues-exec _ (play_consent p u h e n))
        λ _. Issues-pure _

  Issues-completed :
      (p : VideoCompleted)
      → env.decode.video_completed ev.payload ≡ ok p
      → Issues env.server (Allowed env video_completed ev.payload) (apply_completed env ev p)
  unfolding apply_completed insert_behavior upsert_projection is_behavioral
  Issues-completed p h = Issues-bind _ _ (Issues-exec _ refl) λ _.
      Issues-bind _ _
        (Issues-for_user env _ _ _ _ λ u e n. Issues-exec _ (completed_consent p u h e n))
        λ _. Issues-pure _

  -- An event that is only recorded.
  Issues-recorded :
      (type : EventType) (f : BehaviorFields)
      → is_behavioral type ≡ true
      → Issues env.server
          (Allowed env type ev.payload)
          (insert_behavior env ev f >> pure {A = List RedisEffect} [])
  unfolding insert_behavior
  Issues-recorded type f h = Issues-bind _ _ (Issues-exec _ h) λ _. Issues-pure _

  Issues-behave :
      (type : EventType) → Issues env.server (Allowed env type ev.payload) (behave env type ev)
  unfolding behave is_behavioral
  Issues-behave search_submitted = Issues-bind-lift _ _ Issues-submitted
  Issues-behave video_play_started = Issues-bind-lift _ _ Issues-play
  Issues-behave video_completed = Issues-bind-lift _ _ Issues-completed
  Issues-behave video_watch_progress =
      Issues-bind-lift _ _ λ p _. Issues-recorded video_watch_progress _ refl
  Issues-behave search_result_clicked =
      Issues-bind-lift _ _ λ p _. Issues-recorded search_result_clicked _ refl
  Issues-behave video_impression =
      Issues-bind-lift _ _ λ p _. Issues-recorded video_impression _ refl
  Issues-behave search_sugg_shown =
      Issues-bind-lift _ _ λ p _. Issues-recorded search_sugg_shown _ refl
  Issues-behave search_sugg_selected =
      Issues-bind-lift _ _ λ p _. Issues-recorded search_sugg_selected _ refl
  Issues-behave _ = Issues-pure _

  Issues-behavioral :
      (type : EventType)
      → type ≡ event_type ev.type
      → Issues env.server (Allowed env type ev.payload) (apply_behavioral env ev)
  unfolding apply_behavioral
  Issues-behavioral type t = rw (← t) (Issues-behave type)

  Issues-history_deleted :
      (p : UserHistoryDeleted)
      → Issues env.server
          (Allowed env user_history_del ev.payload)
          (apply_history_deleted env.server p)
  unfolding apply_history_deleted
  Issues-history_deleted p = Issues-bind _ _ (Issues-when _ _ λ _. Issues-exec _ refl) λ _.
      Issues-when _ _ λ _.
        Issues-bind _ _ (Issues-exec _ refl)
          λ _. Issues-bind _ _ (Issues-exec _ refl) λ _. Issues-exec _ refl

  -- One statement, then `accepted`.
  Issues-then :
      {S : Stmt → Type 0} (m : Query (Unit {0})) (a : Applied)
      → Issues env.server S m
      → Issues env.server S (m >> pure a)
  Issues-then m a h = Issues-bind _ _ h λ _. Issues-pure _

  Issues-unlisted :
      (u : Uuid) (b : Bool)
      → Issues env.server (Allowed env user_suppress ev.payload) (set_unlisted env u b)
  unfolding set_unlisted is_legacy_catalog_type
  Issues-unlisted u true = Issues-exec _ refl
  Issues-unlisted u false = Issues-exec _ refl

  Issues-other :
      (type : EventType) (behavioral : Bool)
      → type ≡ event_type ev.type
      → Issues env.server (Allowed env type ev.payload) (apply_other env behavioral ev)
  unfolding apply_other
  Issues-other type true t = Issues-bind _ _ (Issues-behavioral type t) λ _. Issues-pure _
  Issues-other type false t = Issues-pure _

  -- `dispatch` runs no statement but those that the event's type and payload allow.
  pub Issues-dispatch :
      (type : EventType)
      → type ≡ event_type ev.type
      → Issues env.server (Allowed env type ev.payload) (dispatch_as env type ev)
  unfolding dispatch_as apply_video_upsert is_legacy_catalog_type
  Issues-dispatch video_upsert t =
      Issues-bind-lift _ _
        λ p _. Issues-then _ _ (Issues-exec _ (refl, document_of-IsConsistent env p.video none))
  Issues-dispatch video_suppress t =
      Issues-bind-lift _ _ λ p _. Issues-then _ _ (Issues-exec _ (refl, refl))
  Issues-dispatch video_stats t = Issues-bind-lift _ _ λ p _. Issues-then _ _ (Issues-exec _ tt)
  Issues-dispatch channel_upsert t =
      Issues-bind-lift _ _ λ p _. Issues-then _ _ (Issues-exec _ refl)
  Issues-dispatch channel_delete t =
      Issues-bind-lift _ _ λ p _. Issues-then _ _ (Issues-exec _ (refl, refl))
  Issues-dispatch user_suppress t =
      Issues-bind-lift _ _ λ p _. Issues-then _ _ (Issues-unlisted p.user_id p.unlisted)
  Issues-dispatch config_updated t =
      Issues-bind-lift _ _ λ p _. Issues-then _ _ (Issues-settings env _ (λ k v. refl) p.settings)
  Issues-dispatch reconcile_begin t = Issues-pure _
  Issues-dispatch reconcile_page t =
      Issues-bind-lift _ _
        λ p _. Issues-then _ _ (Issues-page env _ (λ d c. (refl, c)) p.videos p.run_id)
  Issues-dispatch reconcile_end t = Issues-bind-lift _ _ λ p _. Issues-pure _
  Issues-dispatch user_history_del t =
      Issues-bind-lift _ _ λ p _. Issues-then _ _ (Issues-history_deleted p)
  Issues-dispatch type t = Issues-other type (is_behavioral type) t
