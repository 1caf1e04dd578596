-- ===== src/Outfit.antt =====
-- Outfits: src/outfit/outfit.type.ts, src/outfit/entities/outfit.entity.ts, with the default of
-- src/outfit/constants/outfit.constant.ts.
use pollycasso_back.Prelude.{
  Bool, List, Option, Result, [], bad_request, false, filter, forbidden, includes,
  invalid_category_match, item_not_owned, length, ltb, none, not, or_else, some, throw_if, ℕ, ◌==◌,
  ◌∷◌,
}

pub record OutfitIds : Type 0 where
  pub bird : ℕ
  pub hat : Option ℕ
  pub accessory : Option ℕ
  pub top : Option ℕ
  pub bottom : Option ℕ
  pub shoes : Option ℕ
  pub effect : Option ℕ

pub data CosmeticSubCategory : Type 0 where
  bird_category hat_category acc top_category bottom_category : CosmeticSubCategory
  shoes_category effect_category : CosmeticSubCategory

abbrev category_code : CosmeticSubCategory → ℕ
category_code bird_category = 0
category_code hat_category = 1
category_code acc = 2
category_code top_category = 3
category_code bottom_category = 4
category_code shoes_category = 5
category_code effect_category = 6

abbrev category_eq : CosmeticSubCategory → CosmeticSubCategory → Bool
category_eq a b = category_code a == category_code b

abbrev pub default_bird_id : ℕ
default_bird_id = 150

abbrev pub default_outfit : OutfitIds
default_outfit = record {
  bird = default_bird_id;
  hat = none;
  accessory = none;
  top = none;
  bottom = none;
  shoes = none;
  effect = none;
}

-- What `fromJSON` may be given: nothing, a string, an array, or an object with the fields that are
-- numbers.
pub data Raw : Type 0 where
  missing text array : Raw
  object : (bird hat accessory top bottom shoes effect : Option ℕ) → Raw

abbrev pub from_json : Raw → OutfitIds
from_json missing = default_outfit
from_json text = default_outfit
from_json array = default_outfit
from_json (object bird hat accessory top bottom shoes effect) = record {
  bird = or_else bird default_bird_id;
  hat = hat;
  accessory = accessory;
  top = top;
  bottom = bottom;
  shoes = shoes;
  effect = effect;
}

-- `Object.entries`, with the category of each field.
abbrev pub entries : OutfitIds → List (CosmeticSubCategory × Option ℕ)
entries o =
    (bird_category, some o.bird)
    ∷ (hat_category, o.hat)
    ∷ (acc, o.accessory)
    ∷ (top_category, o.top)
    ∷ (bottom_category, o.bottom)
    ∷ (shoes_category, o.shoes)
    ∷ (effect_category, o.effect)
    ∷ []

abbrev pub not_owned : List ℕ → CosmeticSubCategory × Option ℕ → Bool
not_owned owned (category, none) = false
not_owned owned (category, some id) = not (includes owned id)

unfoldable pub validate_ownership : List ℕ → OutfitIds → Result (Unit {0})
validate_ownership owned o =
    throw_if (ltb 0 (length (filter (not_owned owned) (entries o)))) (forbidden item_not_owned)

-- An item that the map does not know passes.
abbrev pub differs : Option CosmeticSubCategory → CosmeticSubCategory → Bool
differs none category = false
differs (some found) category = not (category_eq category found)

abbrev pub misplaced : (ℕ → Option CosmeticSubCategory) → CosmeticSubCategory × Option ℕ → Bool
misplaced items (category, none) = false
misplaced items (category, some id) = differs (items id) category

unfoldable pub validate_categories :
    (ℕ → Option CosmeticSubCategory) → OutfitIds → Result (Unit {0})
validate_categories items o =
    throw_if (ltb 0 (length (filter (misplaced items) (entries o))))
      (bad_request invalid_category_match)
