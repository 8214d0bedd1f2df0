-- ===== src/Persistence/Withdrawn/Recent.antt =====
-- The guard of src/bitcoiners_dca/persistence/db.py against a second withdrawal in short order.
use bitcoiners_dca.Prelude.{
  ℕ, ◌+◌, ◌*◌, ◌≡◌, refl, inl, inr, Bool, true, List, [], ◌∷◌, ◌++◌, any, keep, leb, Bool-cases,
}
use bitcoiners_dca.Prelude.Dict.{str_eq_refl}
use bitcoiners_dca.Withdrawals.{Withdrawal}
use bitcoiners_dca.Persistence.Withdrawn.{
  is_other, is_recent, record_withdrawal, recent_withdrawal_exists,
}

any_last {ℓ} :
    {A : Type ℓ} (p : A → Bool) (xs : List A) (x : A) → p x ≡ true → any p (xs ++ (x ∷ [])) ≡ true
any_last p [] x h = rw h refl
any_last p (y ∷ ys) x h = elim (Bool-cases (p y)) [
  | inl e ↦ rw e refl
  | inr e ↦ rw e (any_last p ys x h)
]

-- A withdrawal that was recorded is seen until the time has passed, whatever was recorded before.
record_withdrawal-recent_withdrawal_exists :
    (w : Withdrawal) (ws : List Withdrawal) (since_minutes now : ℕ)
    → leb now (w.created_at + since_minutes * 60) ≡ true
    → recent_withdrawal_exists w.exchange since_minutes now (record_withdrawal w ws) ≡ true
unfolding recent_withdrawal_exists record_withdrawal
record_withdrawal-recent_withdrawal_exists w ws since_minutes now h =
    any_last (is_recent w.exchange since_minutes now) (keep (is_other w) ws) w
      (rw (str_eq_refl w.exchange, h) refl)
