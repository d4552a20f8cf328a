-- ===== src/Event/Dispatch.antt =====
-- service.go: dispatch, the effect of one event that has passed the inbox.
use vidra_search.Prelude.{String, Bool, true, false, none, some, List, [], if◌then◌else◌}
use vidra_search.Store.Rows.{Uuid}
use vidra_search.Store.Stmt.{
  suppress_document, update_document_stats, update_channel_documents, suppress_channel_documents,
  suppress_owner_documents, restore_owner_documents,
}
use vidra_search.Store.Query.{Query, exec, pure, lift, ◌>>=◌, ◌>>◌}
use vidra_search.Event.Types.{
  Envelope, EventType, event_type, is_behavioral, video_upsert, video_suppress, video_stats,
  channel_upsert, channel_delete, user_suppress, user_history_del, config_updated, reconcile_begin,
  reconcile_page, reconcile_end,
}
use vidra_search.Event.Env.{Env}
use vidra_search.Event.Documents.{
  apply_video_upsert, apply_page, apply_settings, apply_history_deleted,
}
use vidra_search.Event.Behavior.{RedisEffect, apply_behavioral}

-- The outcome's label in the metrics, and the deferred effects.
abbrev pub Applied : Type 0
Applied = String × List RedisEffect

abbrev accepted : Query Applied
accepted = pure ("accepted", [])

-- user.suppress: unlist the owner, or undo it.
unfoldable pub set_unlisted : Env → Uuid → Bool → Query (Unit {0})
set_unlisted env u unlisted =
    if unlisted
    then exec env.server (suppress_owner_documents u "owner_unlisted")
    else exec env.server (restore_owner_documents u "owner_unlisted")

-- What follows the `switch`: a behavioral event, or an unknown type, which is ignored.
unfoldable pub apply_other : Env → (behavioral : Bool) → Envelope → Query Applied
apply_other env true ev = do effects ← apply_behavioral env ev; pure ("counted", effects)
apply_other env false ev = pure ("ignored", [])

unfoldable pub dispatch_as : Env → EventType → Envelope → Query Applied
unfolding set_unlisted apply_other apply_video_upsert apply_page apply_settings
    apply_history_deleted apply_behavioral
dispatch_as env video_upsert ev = do
  p ← lift (env.decode.video_upsert ev.payload)
  apply_video_upsert env p.video none
  accepted
dispatch_as env video_suppress ev = do
  p ← lift (env.decode.video_suppress ev.payload)
  exec env.server (suppress_document p.video_id (some p.reason))
  accepted
dispatch_as env video_stats ev = do
  p ← lift (env.decode.video_stats ev.payload)
  exec env.server (update_document_stats p.video_id p.views p.likes)
  accepted
dispatch_as env channel_upsert ev = do
  p ← lift (env.decode.channel_upsert ev.payload)
  exec env.server (update_channel_documents p.id (some p.handle) (some p.display_name) p.owner_id)
  accepted
dispatch_as env channel_delete ev = do
  p ← lift (env.decode.channel_delete ev.payload)
  exec env.server (suppress_channel_documents p.channel_id (some "channel_deleted"))
  accepted
dispatch_as env user_suppress ev = do
  p ← lift (env.decode.user_suppress ev.payload)
  set_unlisted env p.user_id p.unlisted
  accepted
dispatch_as env config_updated ev = do
  p ← lift (env.decode.config_updated ev.payload)
  apply_settings env p.settings
  accepted
dispatch_as env reconcile_begin ev = accepted
dispatch_as env reconcile_page ev = do
  p ← lift (env.decode.reconcile_page ev.payload)
  apply_page env p.videos p.run_id
  accepted
dispatch_as env reconcile_end ev = do
  p ← lift (env.decode.reconcile_end ev.payload)
  pure ("ignored", [])
dispatch_as env user_history_del ev = do
  p ← lift (env.decode.user_history_deleted ev.payload)
  apply_history_deleted env.server p
  accepted
dispatch_as env type ev = apply_other env (is_behavioral type) ev

unfoldable pub dispatch : Env → Envelope → Query Applied
unfolding dispatch_as
dispatch env ev = dispatch_as env (event_type ev.type) ev
