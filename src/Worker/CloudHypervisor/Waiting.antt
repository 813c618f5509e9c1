-- ===== src/Worker/CloudHypervisor/Waiting.antt =====
-- cloud_hypervisor.rs: the two loops that wait, for a socket and for a TAP device.
use procurator.Prelude.{
  ℕ, zero, suc, ◌+◌, ◌-◌, ◌*◌, ◌≤◌, ◌<◌, min, String, ◌<>◌, ◌≡◌, refl, ◌⊎◌, inl, inr, Bool, true,
  false, Option, none, some, arith, ltb, if◌then◌else◌, Result, ok, err, map_err, Eff, pure, fail,
  resume, ◌>>=◌, map_error, best_effort,
}
use procurator.Worker.Dto.{VmError, internal, process_failed}
use procurator.Worker.CloudHypervisor.Host.{Host, IsTimely}
use procurator.Worker.CloudHypervisor.Tap.{connect}

-- `(delay * 2).min(500 ms)`
unfoldable pub next_delay : ℕ → ℕ
next_delay delay = min (delay * 2) 500

module _ (H : Host) where
  open H use {World, Netlink}

  -- The loop of `wait_for_socket`, on fuel: `none` means that the fuel ran out. `start` is the time
  -- at which the wait began, and the result says whether the socket appeared in time.
  unfoldable pub poll : ℕ → String → ℕ → ℕ → ℕ → World → Option (Bool × World)
  poll zero path timeout start delay w = none
  poll (suc fuel) path timeout start delay w =
      let again = poll fuel path timeout start (next_delay delay) (H.sleep delay w) in
      if ltb (H.now w - start) timeout
      then (if H.exists path w then some (true, w) else again)
      else some (false, w)

  abbrev pub timed_out : String → ℕ → VmError
  timed_out path timeout =
      process_failed
        ("Socket " <> (path <> (" did not appear within " <> H.debug_duration timeout)))

  unfoldable pub waited :
      String → ℕ → World → Option (Bool × World) → Result (Unit {0}) VmError × World
  waited path timeout w none = (err (timed_out path timeout), w)
  waited path timeout w (some (true, w')) = (ok tt, w')
  waited path timeout w (some (false, w')) = (err (timed_out path timeout), w')

  -- A wait sleeps for at least 10 ms a round, so `timeout + 1` rounds are enough.
  unfoldable pub wait_for_socket : String → ℕ → Eff World VmError (Unit {0})
  wait_for_socket path timeout w =
      waited path timeout w (poll (suc timeout) path timeout (H.now w) 10 w)

  abbrev link_index : Netlink → String → Eff World VmError (Option ℕ)
  link_index handle name =
      map_error (λ e. internal ("netlink get failed: " <> e)) (H.link_get handle name)

  -- The TAP is there: the bridge must be, and an attach that fails is only logged.
  unfoldable pub attach_to : Netlink → String → ℕ → Option ℕ → Eff World VmError (Unit {0})
  attach_to handle bridge tap_idx none =
      fail (internal ("bridge " <> (bridge <> " not found when attaching TAP")))
  attach_to handle bridge tap_idx (some bridge_idx) =
      best_effort (H.link_attach handle tap_idx bridge_idx)

  unfoldable pub found_tap :
      Netlink → String → Eff World VmError (Unit {0}) → Option ℕ → Eff World VmError (Unit {0})
  found_tap handle bridge retry none = retry
  found_tap handle bridge retry (some tap_idx) = do
    bridge_idx ← link_index handle bridge
    attach_to handle bridge tap_idx bridge_idx

  -- What a missing TAP leads to: another attempt after 100 ms, and after the last one a warning.
  unfoldable pub retry_after : ℕ → Eff World VmError (Unit {0}) → Eff World VmError (Unit {0})
  retry_after zero next w = (ok tt, w)
  retry_after (suc n) next w = next (H.sleep 100 w)

  -- The loop of `attach_tap_to_bridge`, by the attempts left.
  unfoldable pub attempt : ℕ → Netlink → String → String → Eff World VmError (Unit {0})
  attempt zero handle tap bridge = pure tt
  attempt (suc n) handle tap bridge = do
    tap_idx ← link_index handle tap
    found_tap handle bridge (retry_after n (attempt n handle tap bridge)) tap_idx

  unfoldable pub attach_tap : String → String → Eff World VmError (Unit {0})
  attach_tap tap bridge = do handle ← connect H; attempt 20 handle tap bridge

module _ (H : Host) (timely : IsTimely H) (path : String) (timeout start : ℕ) where
  open H use {World}

  -- How a wait ends: the socket is there, or the time is up.
  abbrev pub Ended : Option (Bool × World) → Type 0
  Ended none = ⊥
  Ended (some (true, w)) = H.exists path w ≡ true
  Ended (some (false, w)) = timeout ≤ H.now w - start

  poll-Ended :
      (fuel delay : ℕ) (w : World)
      → 0 < fuel
      → start ≤ H.now w
      → timeout + start < H.now w + fuel
      → 0 < delay
      → Ended (poll H fuel path timeout start delay w)
  unfolding poll next_delay
  poll-Ended zero delay w some_fuel began enough positive = absurd (omega arith)
  poll-Ended (suc fuel) delay w some_fuel began enough positive =
      ground (arith, timely.sleeps delay w, poll-Ended fuel (next_delay delay) (H.sleep delay w))

-- On a host whose sleeps take their time, a wait for a socket ends within its rounds: with success
-- and the socket there, or with the timeout's error once the time is up, and in no other way.
pub wait_for_socket_lem :
    (H : Host) (path : String) (timeout : ℕ) (w : H.World)
    → IsTimely H
    → let r = wait_for_socket H path timeout w in
      ((r.0 ≡ ok tt) × (H.exists path r.1 ≡ true))
      ⊎ ((r.0 ≡ err (timed_out H path timeout)) × (timeout ≤ H.now r.1 - H.now w))
unfolding wait_for_socket waited
wait_for_socket_lem H path timeout w timely =
    outcome (poll H (suc timeout) path timeout (H.now w) 10 w) (
      poll-Ended H timely path timeout (H.now w) (suc timeout) 10 w (omega arith) (omega arith)
        (omega arith) (omega arith))
  where
    outcome :
        (o : Option (Bool × H.World))
        → Ended H timely path timeout (H.now w) o
        → let r = waited H path timeout w o in
          ((r.0 ≡ ok tt) × (H.exists path r.1 ≡ true))
          ⊎ ((r.0 ≡ err (timed_out H path timeout)) × (timeout ≤ H.now r.1 - H.now w))
    outcome none h = absurd h
    outcome (some (true, w')) h = inl (refl, h)
    outcome (some (false, w')) h = inr (refl, h)

module _ (H : Host) (handle : H.Netlink) (tap bridge : String) where
  -- The errors of an attach: netlink does not answer a lookup, or the bridge is gone.
  abbrev pub AttachError : VmError → Type 0
  AttachError e =
      ((x : String) × (e ≡ internal ("netlink get failed: " <> x)))
      ⊎ (e ≡ internal ("bridge " <> (bridge <> " not found when attaching TAP")))

  abbrev pub Attached : Result (Unit {0}) VmError → Type 0
  Attached (ok a) = Unit
  Attached (err e) = AttachError e

  link_index-Attached :
      (name : String) (f : Option ℕ → Eff H.World VmError (Unit {0})) (w : H.World)
      → ((o : Option ℕ) (w' : H.World) → Attached (f o w').0)
      → Attached (resume (link_index H handle name w).0 f (link_index H handle name w).1).0
  link_index-Attached name f w next = go (H.link_get handle name w).0
    where
      go :
          (r : Result (Option ℕ) String)
          → Attached
              (resume
                (map_err (λ e. internal ("netlink get failed: " <> e)) r)
                f
                (H.link_get handle name w).1).0
      go (ok o) = next o _
      go (err x) = inl (x, refl)

  attach_to-Attached :
      (tap_idx : ℕ) (o : Option ℕ) (w : H.World)
      → Attached (attach_to H handle bridge tap_idx o w).0
  unfolding attach_to
  attach_to-Attached tap_idx none w = inr refl
  attach_to-Attached tap_idx (some bridge_idx) w = tt

  found_tap-Attached :
      (retry : Eff H.World VmError (Unit {0})) (o : Option ℕ) (w : H.World)
      → ((w' : H.World) → Attached (retry w').0)
      → Attached (found_tap H handle bridge retry o w).0
  unfolding found_tap
  found_tap-Attached retry none w h = h w
  found_tap-Attached retry (some tap_idx) w h =
      link_index-Attached bridge _ w λ o w'. attach_to-Attached tap_idx o w'

  retry_after-Attached :
      (n : ℕ) (next : Eff H.World VmError (Unit {0})) (w : H.World)
      → ((w' : H.World) → Attached (next w').0)
      → Attached (retry_after H n next w).0
  unfolding retry_after
  retry_after-Attached zero next w h = tt
  retry_after-Attached (suc n) next w h = h _

  -- However many attempts are left, an attach fails only when netlink does not answer a lookup or
  -- the bridge is gone: a TAP that does not show up, or an attach that is refused, is no error.
  attempt-Attached : (n : ℕ) (w : H.World) → Attached (attempt H n handle tap bridge w).0
  unfolding attempt
  attempt-Attached zero w = tt
  attempt-Attached (suc n) w = link_index-Attached tap _ w λ o w'.
      found_tap-Attached _ o w'
        λ w''. retry_after-Attached n (attempt H n handle tap bridge) w'' (attempt-Attached n)
