-- ===== src/Game/Items/Service.antt =====
-- The service of src/game/item/game-item.service.ts over its two stores.
use pollycasso_back.Prelude.{
  List, Option, Text, [], bad_request, if◌then◌else◌, length, ltb, not, ok, or_else,
  target_not_in_room, truthy?, ℕ, ◌∷◌,
}
use pollycasso_back.Exec.{Exec, ◌>>=◌, ◌>>◌, pure, lift, raise_if}
use pollycasso_back.Game.Items.{
  Items, UseParams, UseItemResult, ItemSpec, decide, get_remaining, get_ends_at, spend, init_user,
  extract_used, clear,
}

-- `useItem` up to the `await` of the spec cache: what is left of the item, and when its cooldown ends. Other
-- messages may run before the rest does, which relies on these two.
unfoldable pub begin_use : UseParams → Exec Items (ℕ × ℕ)
begin_use p = do
  remaining ← get_remaining p.phase_key p.attacker_user_id p.item_id
  ends_at ← get_ends_at p.phase_key p.attacker_user_id p.item_id
  pure (remaining, ends_at)

unfoldable pub finish_use : (ℕ → Option ItemSpec) → UseParams → ℕ × ℕ → Exec Items UseItemResult
finish_use specs p (remaining, ends_at) = do
  decided ← lift (decide p remaining ends_at (specs p.item_id))
  spend p decided.0
  pure decided.1

-- Where no other message runs during the `await`.
unfoldable pub use_item : (ℕ → Option ItemSpec) → UseParams → Exec Items UseItemResult
unfolding begin_use finish_use
use_item specs p = do known ← begin_use p; finish_use specs p known

-- A nickname that is empty counts as missing.
unfoldable pub use_item_in_room :
    (ℕ → Option ItemSpec) → (ℕ → ℕ → Option Text) → ℕ → UseParams → Exec Items UseItemResult
use_item_in_room specs nickname room_id p = do
  raise_if (not (truthy? (nickname room_id p.target_user_id))) (bad_request target_not_in_room)
  use_item specs (record p { target_nickname = or_else (nickname room_id p.target_user_id) [] })

unfoldable pub init_inventory : (ℕ → List (ℕ × ℕ)) → Text → ℕ → Exec Items (Unit {0})
init_inventory rows phase_key user_id s =
    (ok tt, record s { inventory = init_user phase_key user_id (rows user_id) s.inventory })

unfoldable pub commit_inventory : Text → Exec Items (Unit {0})
commit_inventory phase_key s =
    let used_list = extract_used phase_key s.inventory in
    (
      ok tt,
      record {
        inventory = clear phase_key s.inventory;
        cooldowns = clear phase_key s.cooldowns;
        applied = if ltb 0 (length used_list) then used_list ∷ s.applied else s.applied;
      },
    )
