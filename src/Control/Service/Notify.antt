-- ===== src/Control/Service/Notify.antt =====
-- control/control_service/service.go: the notification channels.
use mathlib.Core.Option
use netproject.Shared.{ℕ, suc, ◌+◌, ◌≡◌, ◌≤◌, refl, [], ◌∷◌, false, none, some, arith, inl, inr}
use netproject.Shared.{◌==◌, nat_eq, ltb, if◌then◌else◌, All, Option-cases}
use netproject.Shared.Map
use netproject.Shared.Map.{Map, get-put, get-delete}
use netproject.Control.Service.{
  Service, chan_capacity, get_notify_chan, notify_all_except_locked, notify_all_except, blocked,
}

-- No channel holds more than its capacity.
abbrev pub IsBounded : Map ℕ ℕ → Type 0
IsBounded = All (λ c. c.1 ≤ chan_capacity)

-- One more signal, where there is room.
abbrev pub signalled : ℕ → ℕ
signalled pending = if ltb pending chan_capacity then pending + 1 else pending

notify-IsBounded : (id : ℕ) (m : Map ℕ ℕ) → IsBounded m → IsBounded (notify_all_except_locked id m)
unfolding notify_all_except_locked
notify-IsBounded id [] h = tt
notify-IsBounded id ((j, p) ∷ m) h = (ground arith, notify-IsBounded id m h.1)

delete-IsBounded : (id : ℕ) (m : Map ℕ ℕ) → IsBounded m → IsBounded (Map.delete id m)
unfolding Map.delete
delete-IsBounded id [] h = tt
delete-IsBounded id ((j, p) ∷ m) h = ground (arith, delete-IsBounded id m h.1)

pub put-IsBounded :
    (id p : ℕ) (m : Map ℕ ℕ) → p ≤ chan_capacity → IsBounded m → IsBounded (Map.put id p m)
unfolding Map.put
put-IsBounded id p m le h = (le, delete-IsBounded id m h)

pub get-IsBounded :
    (id p : ℕ) (m : Map ℕ ℕ) → IsBounded m → Map.get id m ≡ some p → p ≤ chan_capacity
unfolding Map.get
get-IsBounded id p [] h e = cc
get-IsBounded id p ((j, q) ∷ m) h e = ground (arith, get-IsBounded id p m h.1)

pub get_notify_chan-IsBounded :
    (id : ℕ) (s : Service)
    → IsBounded s.notify_chans
    → IsBounded (get_notify_chan id s).notify_chans
unfolding get_notify_chan
get_notify_chan-IsBounded id s h =
    ground
      (arith, notify-IsBounded id (Map.put id 0 s.notify_chans), put-IsBounded id 0 s.notify_chans)

get-notify :
    (id j : ℕ) (m : Map ℕ ℕ)
    → Map.get j (notify_all_except_locked id m)
      ≡ Option.map (λ p. if j == id then p else signalled p) (Map.get j m)
unfolding notify_all_except_locked Map.get
get-notify id j [] = refl
get-notify id j ((i, p) ∷ m) = ground (arith, get-notify id j m)

-- A node's first poll gives it an empty channel and every other channel one more signal, up to
-- five; a later poll leaves every channel as it is.
pub get_notify_chan_lem :
    (id j : ℕ) (s : Service)
    → Map.get j (get_notify_chan id s).notify_chans ≡ elim (Map.get id s.notify_chans) [
      | none ↦ if id == j then some 0 else Option.map signalled (Map.get j s.notify_chans)
      | some _ ↦ Map.get j s.notify_chans
    ]
unfolding get_notify_chan
get_notify_chan_lem id j s = elim (Option-cases (Map.get id s.notify_chans)) [
  | inl e ↦
      rw e (
        ground
          (arith, get-notify id j (Map.put id 0 s.notify_chans), get-put id j 0 s.notify_chans))
  | inr (p, e) ↦ rw (get_notify_chan, e) refl
]

-- `notifyAllExcept` never returns: its second call waits for the mutex that its first call holds.
pub notify_all_except_blocks :
    (fuel id : ℕ) (chans : Map ℕ ℕ) → notify_all_except (fuel + 2) false id chans ≡ blocked
unfolding notify_all_except
notify_all_except_blocks fuel id chans = let two : fuel + 2 ≡ suc (suc fuel) = omega arith in rw two
