-- ===== src/Tests/Items.antt =====
-- A player with two of an item.
use pollycasso_back.Prelude.{
  Option, [], arith, false, if◌then◌else◌, is_ok, none, ok, refl, some, ℕ, ◌==◌, ◌∷◌, ◌≡◌, ◌⊎◌,
}
use pollycasso_back.Game.Items.{use_result, Items, ItemSpec, UseParams}
use pollycasso_back.Game.Items.Uses.{Succeeds, IsRefused, use_item_lem, left}
use pollycasso_back.Game.Items.Service.{use_item}
use pollycasso_back.Game.Items.Overlap.{later, overlapped, overlapped_lem}
use pollycasso_back.Tests.Fixtures.{moon, star, secret}

abbrev stock : Items
stock = record {
  inventory = (moon, (1, (9, record { initial = 2; remaining = 2 }) ∷ []) ∷ []) ∷ [];
  cooldowns = [];
  applied = [];
}

abbrev specs : ℕ → Option ItemSpec
specs n =
    if n == 9 then some (record { name = star; duration_ms = 3000; cooldown_ms = 500 }) else none

abbrev use_at : ℕ → UseParams
use_at now = record {
  phase_key = moon;
  attacker_user_id = 1;
  attacker_nickname = star;
  target_user_id = 2;
  target_nickname = secret;
  item_id = 9;
  now = now;
}

use_item_example : Succeeds specs (use_at 1000) stock ⊎ IsRefused specs (use_at 1000) stock
use_item_example = use_item_lem specs (use_at 1000) stock

abbrev cross : ItemSpec
cross = record { name = star; duration_ms = 3000; cooldown_ms = 500 }

overlapped_example :
    ((overlapped specs (use_at 1000) (later (use_at 1000) 3 moon 1100) stock).0
      ≡ ok (use_result (use_at 1000) 2 cross, use_result (later (use_at 1000) 3 moon 1100) 2 cross))
    × (left (overlapped specs (use_at 1000) (later (use_at 1000) 3 moon 1100) stock).1 moon 1 9 ≡ 0)
    × (is_ok
          (use_item specs
            (later (use_at 1000) 3 moon 1100)
            (use_item specs (use_at 1000) stock).1).0
        ≡ false)
overlapped_example =
    overlapped_lem specs (use_at 1000) stock 3 moon 1100 cross (omega arith) (omega arith)
      (omega arith) (omega arith) refl
