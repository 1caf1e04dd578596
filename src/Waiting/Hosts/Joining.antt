-- ===== src/Waiting/Hosts/Joining.antt =====
-- Joining a waiting room, and the changes of single players: `joinRoom`, `toggleReady`, `changeTeam`,
-- `updatePageStatus`, `updateOutfit` and `updateSettings` of src/waiting/waiting.service.ts.
use pollycasso_back.Prelude.{
  ==_ne, ==_refl, Bool, Bool-cases, Option, Option-cases, Text, arith, false, if◌then◌else◌, inl,
  inr, ok, refl, some, sym, true, value-show, ℕ, ◌&&◌, ◌==◌, ◌||◌, ◌∙◌, ◌≡◌, ◌⊎◌,
}
use native.Mathlib.Decide.{ℕ_discrete}
use pollycasso_back.Exec.{Exec, ◌>>=◌, ◌>>◌}
use pollycasso_back.Waiting.{Waiting, WaitingPlayerState}
use pollycasso_back.Waiting.Store.{
  flag, WaitingRedis, Hall, hash_of, join_room, try_assign_host, same_key, set_ready,
}
use pollycasso_back.Waiting.{can_join, has_player, requires_password}
use pollycasso_back.Waiting.Service.{
  validate_password, WaitingEnv, admit, join, create_player, welcome_host,
}
use pollycasso_back.Waiting.Hosts.{
  pure-Preserves, lift-Preserves, >>=-Preserves, load_waiting_entity-Preserves, if-Preserves,
  get_state-Preserves, is_member, has_hash, host, exists, IsWell, Led, Led-cong, Preserves,
  continue-Preserves, hset-Preserves,
}

or_left : {A : Type 0} (a b : Bool) → (a ≡ true → A) → (a || b) ≡ true → A ⊎ (b ≡ true)
or_left true b f h = inl (f refl)
or_left false b f h = inr h

module _ {redis : WaitingRedis} where
  joined_hash :
      (k : ℕ) (p : WaitingPlayerState) (s : Hall redis) (r v : ℕ)
      → (has_hash s r v ≡ true) ⊎ ((k == r && p.user_id == v) ≡ true)
      → has_hash (join_room k p s).1 r v ≡ true
  unfolding join_room
  joined_hash k p s r v h = elim (Bool-cases (same_key (k, p.user_id) (r, v))) [
    | inl e ↦
        rw (redis.players.get_set (k, p.user_id) (r, v) (hash_of p) s.players, e)
          (ground (arith, e, value-show p.user_id))
    | inr e ↦
        rw (redis.players.get_set (k, p.user_id) (r, v) (hash_of p) s.players, e)
          (ground (arith, h, e))
  ]

  joined_member :
      (k : ℕ) (p : WaitingPlayerState) (s : Hall redis) (r v : ℕ)
      → is_member (join_room k p s).1 r v ≡ (is_member s r v || (k == r && p.user_id == v))
  unfolding join_room
  joined_member k p s r v = redis.members.smembers_sadd k p.user_id r v s.members

  -- The room of the new player has a host at the end.
  enrolled-Led :
      (k : ℕ) (p : WaitingPlayerState) (s : Hall redis) (r : ℕ)
      → Led (is_member s r) (host s r)
      → Led
          (is_member (join_room k p s).1 r)
          (host (try_assign_host k p.user_id (join_room k p s).1).1 r)
  unfolding join_room try_assign_host
  enrolled-Led k p s r led = elim (Option-cases (host s k)) [
    | inl e ↦ elim (ℕ_discrete k r) [
      | yes q ↦
          rw (e, redis.hosts.get_set k r p.user_id s.hosts, q, ==_refl r)
            (joined_member r p s r p.user_id ∙ ground arith)
      | no n ↦
          rw (e, redis.hosts.get_set k r p.user_id s.hosts, ==_ne k r n)
            (Led-cong (is_member s r) (is_member (join_room k p s).1 r) (host s r)
              (λ v. joined_member k p s r v ∙ ground (arith, n)) led)
    ]
    | inr (h, e) ↦ elim (ℕ_discrete k r) [
      | yes q ↦ rw (sym q, e, e) (joined_member k p s k h ∙ ground (arith, (rw (sym q, e) at led)))
      | no n ↦ rw e (
          Led-cong (is_member s r) (is_member (join_room k p s).1 r) (host s r)
            (λ v. joined_member k p s r v ∙ ground (arith, n)) led)
    ]
  ]

  try_assign_host_keys :
      (k u : ℕ) (s : Hall redis) (r v : ℕ)
      → (is_member (try_assign_host k u s).1 r v ≡ is_member s r v)
        × (has_hash (try_assign_host k u s).1 r v ≡ has_hash s r v)
        × (exists (try_assign_host k u s).1 r ≡ exists s r)
  unfolding try_assign_host
  try_assign_host_keys k u s r v = elim (Option-cases (host s k)) [
    | inl e ↦ rw e (refl, refl, refl)
    | inr (h, e) ↦ rw e (refl, refl, refl)
  ]

  enrolled-IsWell :
      (k : ℕ) (p : WaitingPlayerState) (s : Hall redis)
      → IsWell s
      → IsWell (try_assign_host k p.user_id (join_room k p s).1).1
  unfolding join_room
  enrolled-IsWell k p s well r there =
      let t = (join_room k p s).1 in
      let (named, led) = well r (sym ((try_assign_host_keys k p.user_id t r 0).2) ∙ there) in
      (
        (λ v m.
            let (members, hashes, _) = try_assign_host_keys k p.user_id t r v in
            hashes
            ∙ joined_hash k p s r v (
                or_left (is_member s r v) (k == r && p.user_id == v) (named v)
                  (sym (joined_member k p s r v) ∙ sym members ∙ m))),
        Led-cong (is_member t r) (is_member (try_assign_host k p.user_id t).1 r)
            (host (try_assign_host k p.user_id t).1 r)
            (λ v. (try_assign_host_keys k p.user_id t r v).0) (enrolled-Led k p s r led),
      )

  welcome_host-Preserves :
      (k u : ℕ) (is_host : Bool) → Preserves (welcome_host {redis = redis} k u is_host)
  unfolding welcome_host set_ready
  welcome_host-Preserves k u is_host =
      if-Preserves is_host
        (hset-Preserves k u (λ h. record h { is_ready = some (flag true) }) λ h. refl)
        (pure-Preserves tt)

  -- Adding the player and trying for the host's place, and what follows.
  enrol-Preserves :
      {A : Type 0} (k : ℕ) (p : WaitingPlayerState) (f : Bool → Exec (Hall redis) A)
      → ((b : Bool) → Preserves (f b))
      → Preserves (do join_room k p; is_host ← try_assign_host k p.user_id; f is_host)
  unfolding ◌>>=◌ join_room
  enrol-Preserves k p f q = record {
    keeps = λ s well.
        continue-Preserves f (try_assign_host k p.user_id (join_room k p s).1) q
          (enrolled-IsWell k p s well);
  }

  admit-Preserves :
      (env : WaitingEnv) (k u : ℕ) (password : Option Text) (w : Waiting)
      → Preserves (admit {redis = redis} env k u password w)
  unfolding admit create_player
  admit-Preserves env k u password w =
      >>=-Preserves
        (lift-Preserves
          (if requires_password w then validate_password env w.room password else ok tt))
        λ _.
          enrol-Preserves k (create_player env u w) _
            λ is_host. >>=-Preserves (welcome_host-Preserves k u is_host) λ _. pure-Preserves _

  -- Joining a room, by a new player or by one who is there.
  pub join-Preserves :
      (env : WaitingEnv) (k u : ℕ) (password : Option Text)
      → Preserves (join {redis = redis} env k u password)
  unfolding join
  join-Preserves env k u password = >>=-Preserves (load_waiting_entity-Preserves k) λ w.
      >>=-Preserves (lift-Preserves (can_join w u)) λ _.
        >>=-Preserves
          (if-Preserves (has_player w u) (pure-Preserves _) (admit-Preserves env k u password w))
          λ name. >>=-Preserves (get_state-Preserves k) λ state. pure-Preserves _
