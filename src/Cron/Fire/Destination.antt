-- ===== src/Cron/Fire/Destination.antt =====
-- Where a fire of src/cron.c goes: the first half of `fire_due`.
use cclaw.Prelude.{ℕ, Option, none, some, if◌then◌else◌, Bytes, codes}
use cclaw.Prelude.Int.{ℤ, pos, negsuc}
use cclaw.Store.{Session}
use cclaw.Cron.Table.{JobRow, same_id}
use cclaw.Cron.Fire.State.{
  World, is_new, is_pin, chat_bound, fire_agent, Routed, recent_session, session_exists,
  routed_session, unrouted, routed_to,
}

-- Where a fire goes that makes no session.
pub data Target : Type 0 where
  deliver_to : ℕ → Target
  refuse_fire : Bytes → Target
  no_session : Target

abbrev pub late_bound : Option Session → Target
late_bound none = no_session
late_bound (some s) = deliver_to s.id

abbrev pub to_ℕ : ℤ → ℕ
to_ℕ (pos n) = n
to_ℕ (negsuc n) = 0

abbrev pub known : World → ℤ → Bytes → Target
known w id why = if session_exists w.sessions id then deliver_to (to_ℕ id) else refuse_fire why

abbrev pub follow : World → JobRow → ℤ → Target
follow w j id =
    if same_id id (pos 0)
    then late_bound (recent_session w.sessions j.agent_name)
    else known w id (codes "the session it was following no longer exists")

abbrev pub routed_id : ℤ → Routed → ℤ
routed_id id (routed_to session_id) = pos session_id
routed_id id _ = id

unfoldable pub target_of : World → JobRow → Routed → Target
unfolding session_exists recent_session
target_of w j route =
    if is_pin j
    then known w j.session_id (codes "the pinned session no longer exists")
    else follow w j (routed_id j.session_id route)

abbrev pub route_of : World → JobRow → Routed
route_of w j =
    if chat_bound j
    then routed_session w j.channel_name j.chat_id (if is_new j then fire_agent j else j.agent_name)
    else unrouted
