-- ===== src/Retry/Notify.antt =====
-- TryPersistPendingMulticlassCache and NotifyServerAuthStatsUpdated, and the calls that the hooks
-- make as events. The cache file and `std::sort` are those of Cache.Store.
use eqemu_monomyth_client.Prelude.{
  ℕ, Bool, true, false, not, ◌==◌, ◌||◌, List, [], ◌∷◌, Option, none, some, if◌then◌else◌,
}
use eqemu_monomyth_client.AuthStats.Observe.{Snapshot}
use eqemu_monomyth_client.Cache.Lines.{CacheEntry}
use eqemu_monomyth_client.Cache.Store.{store_character_class_mask}
use eqemu_monomyth_client.Retry.State.{
  cleared, armed, after_cooldown, should_arm_deferred_multiclass_caster_ui_access_retry,
  should_arm_deferred_combat_ability_resync_retry,
}
use eqemu_monomyth_client.Retry.Ensure.{
  Answers, try_ensure_multiclass_caster_ui_access_for_assigned_mask,
}
use eqemu_monomyth_client.Retry.Pending.{
  Globals, CasterAnswers, CombatAnswers, try_retry_pending_multiclass_caster_ui_access,
  try_retry_pending_combat_ability_resync,
  try_rearm_multiclass_caster_ui_access_for_zone_transition,
}

pub record Persist : Type 0 where
  pub pending : Bool
  pub pending_mask : ℕ

-- What is read for the cache: the profile's class, the server's name, and the name of the local
-- player, where its pointer is read and is not null.
pub record PersistAnswers : Type 0 where
  pub profile_class_id : Option ℕ
  pub server_name : Option (List ℕ)
  pub local_player_name : Option (List ℕ)

module _ (sort : List CacheEntry → List CacheEntry) (writable : Bool) where
  unfoldable pub persisted_file : PersistAnswers → ℕ → Option (List ℕ) → Option (List ℕ) × Bool
  persisted_file answers mask file = elim answers.profile_class_id [
    | none ↦ (file, false)
    | some class_id ↦ elim answers.server_name [
      | none ↦ (file, false)
      | some server ↦ elim answers.local_player_name [
        | none ↦ (file, false)
        | some name ↦ store_character_class_mask sort writable name mask class_id server file
      ]
    ]
  ]

  unfoldable pub try_persist_pending_multiclass_cache :
      PersistAnswers → Persist → Option (List ℕ) → Persist × Option (List ℕ)
  try_persist_pending_multiclass_cache answers p file =
      if not p.pending
      then (p, file)
      else if p.pending_mask == 0
      then (record p { pending = false }, file)
      else let stored = persisted_file answers p.pending_mask file in
        (if stored.1 then record { pending = false; pending_mask = 0 } else p, stored.0)

-- What the client answers to a notification: whether the combat abilities are synchronised again,
-- and the reads for the caster windows.
pub record NotifyAnswers : Type 0 where
  pub resynced : Bool
  pub attempt : Answers
  pub class_behind : Option ℕ

-- The two retries behind a notification.
unfoldable pub notify_retries : ℕ → ℕ → NotifyAnswers → Globals → Globals
notify_retries tick mask answers g =
    let tried =
      try_ensure_multiclass_caster_ui_access_for_assigned_mask answers.attempt mask g.ui in
    record g {
      combat =
          if answers.resynced
          then cleared
          else if should_arm_deferred_combat_ability_resync_retry mask
          then armed mask (after_cooldown tick)
          else cleared;
      caster =
          if tried.1
          then cleared
          else if should_arm_deferred_multiclass_caster_ui_access_retry answers.class_behind mask
          then armed mask (after_cooldown tick)
          else cleared;
      ui = tried.0;
    }

-- The refresh of the character list is not modelled: it reads and writes the client's windows only.
unfoldable pub notify_server_auth_stats_updated : ℕ → Snapshot → NotifyAnswers → Globals → Globals
notify_server_auth_stats_updated tick snapshot answers g =
    if not snapshot.has_classes_bitmask || snapshot.classes_bitmask == 0
    then g
    else notify_retries tick snapshot.classes_bitmask answers g

-- The same notification's part for the cache file.
unfoldable pub notify_cache :
    (List CacheEntry → List CacheEntry)
    → Bool
    → Snapshot
    → PersistAnswers
    → Persist
    → Option (List ℕ)
    → Persist × Option (List ℕ)
notify_cache sort writable snapshot answers p file =
    if not snapshot.has_classes_bitmask || snapshot.classes_bitmask == 0
    then (p, file)
    else try_persist_pending_multiclass_cache sort writable answers
        (record { pending = true; pending_mask = snapshot.classes_bitmask }) file

-- What happens to the retries: a notification, a packet, and the hooks that try again.
pub data Event : Type 0 where
  auth_stats_updated : ℕ → Snapshot → NotifyAnswers → Event
  zone_transition : ℕ → ℕ → Snapshot → Option ℕ → Event
  caster_trigger : ℕ → CasterAnswers → Event
  combat_trigger : ℕ → CombatAnswers → Event

unfoldable pub handle : Event → Globals → Globals
handle (auth_stats_updated tick snapshot answers) g =
    notify_server_auth_stats_updated tick snapshot answers g
handle (zone_transition tick opcode snapshot primary_class) g =
    try_rearm_multiclass_caster_ui_access_for_zone_transition tick opcode snapshot primary_class g
handle (caster_trigger tick answers) g =
    try_retry_pending_multiclass_caster_ui_access tick answers g
handle (combat_trigger tick answers) g = try_retry_pending_combat_ability_resync tick answers g

unfoldable pub run : List Event → Globals → Globals
run [] g = g
run (event ∷ events) g = run events (handle event g)
