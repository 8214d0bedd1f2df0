-- ===== src/Tests/Accounts.antt =====
-- Patches of a configuration, and the sums over a short history of trades.
use bitcoiners_dca.Prelude.{
  ℕ, ◌≡◌, inl, inr, refl, Bool, true, false, ◌&&◌, none, some, List, [], ◌∷◌, All, leb,
}
use bitcoiners_dca.Prelude.Dict.{lookup}
use bitcoiners_dca.Decimal.{whole}
use bitcoiners_dca.Models.{Pair, buy, filled}
use bitcoiners_dca.Router.Market.{pair_of}
use bitcoiners_dca.Persistence.Totals.{Row, stable_aed_rates}
use bitcoiners_dca.Persistence.Totals.Rates.{bought_of, own_rate, stable_aed_rates-own}
use bitcoiners_dca.ConfigWriter.{
  Value, null, scalar, mapping, Items, empty, item, Dotted, saved, find, put, get_dotted, walk_down,
  set_dotted, apply_updates, patch_and_save,
}
use bitcoiners_dca.ConfigWriter.Patches.{patch_and_save-reads}

abbrev same_value : Value ℕ → Value ℕ → Bool
same_value null null = true
same_value (scalar m) (scalar n) = leb m n && leb n m
same_value _ _ = false

abbrev any_config : Items ℕ → Bool
any_config d = true

-- strategy: {amount_aed: 500}
abbrev config : Items ℕ
config = item "strategy" (mapping (item "amount_aed" (scalar 500) empty)) empty

abbrev amount : Dotted
amount = ("strategy", "amount_aed" ∷ [])

abbrev mode : Dotted
mode = ("execution", "mode" ∷ [])

abbrev patch : List (Dotted × Value ℕ)
patch = (amount, scalar 750) ∷ (mode, scalar 1) ∷ []

abbrev patched : Items ℕ
patched = (patch_and_save same_value any_config patch config).1

patch_saved :
    patch_and_save same_value any_config patch config ≡ (saved (amount ∷ mode ∷ []), patched)
unfolding patch_and_save apply_updates get_dotted walk_down find set_dotted put
patch_saved = refl

patch_and_save-reads_example :
    All (λ u. same_value (get_dotted patched u.0) u.1 ≡ true) patch
    × (get_dotted patched ("strategy", "pair" ∷ []) ≡ get_dotted config ("strategy", "pair" ∷ []))
patch_and_save-reads_example =
    patch_and_save-reads same_value any_config patch config (amount ∷ mode ∷ []) patched
      ("strategy", "pair" ∷ []) patch_saved ((inl refl, tt), (tt, tt)) (refl, (refl, tt))
      (inr refl, (inl refl, tt))

abbrev row : Pair → ℕ → ℕ → ℕ → Row
row p spent got time = record {
  trade = record {
    side = buy;
    status = filled;
    timestamp = time;
    amount_quote = some (whole spent);
    amount_quote_aed = none;
    pair = p;
  };
  amount_base = some (whole got);
}

abbrev history_rows : List Row
history_rows =
    row (pair_of "USDT" "AED") 367 100 10
    ∷ row (pair_of "USDC" "AED") 368 100 11
    ∷ row (pair_of "BTC" "USDT") 50 1 12
    ∷ []

stable_aed_rates-own_example :
    lookup "USDT" (stable_aed_rates history_rows)
    ≡ own_rate (bought_of "USDT" history_rows (whole 0, whole 0))
stable_aed_rates-own_example = stable_aed_rates-own "USDT" history_rows
