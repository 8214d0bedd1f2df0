-- ===== src/Lightning.antt =====
-- src/bitcoiners_dca/core/lightning.py: what a destination of a withdrawal is, and how a Lightning
-- destination becomes an invoice. The two requests of the flow are parameters: what the hosts
-- answer is arbitrary. Messages are left out.
pub mod Invoices
use bitcoiners_dca.Prelude.{
  ℕ, ◌*◌, Bool, true, false, not, ◌&&◌, ◌||◌, Option, none, some, List, [], ◌∷◌, any, leb, ltb,
  ◌==◌, if◌then◌else◌,
}
use bitcoiners_dca.Prelude.Int.{ℤ, pos, magnitude, ltb_ℤ, leb_ℤ}
use bitcoiners_dca.Prelude.Text.{
  Text, codes, is_empty, strip, lower, starts_with, before_char, after_char,
}

abbrev bolt11_prefixes : List Text
bolt11_prefixes = codes "lnbc" ∷ codes "lntb" ∷ codes "lnbcrt" ∷ codes "lnbs" ∷ codes "lnsb" ∷ []

abbrev onchain_prefixes : List Text
onchain_prefixes = codes "1" ∷ codes "3" ∷ codes "bc1" ∷ codes "tb1" ∷ codes "bcrt1" ∷ []

pub data WithdrawalNetwork : Type 0 where
  bitcoin lightning lnurl lightning_address unknown : WithdrawalNetwork

unfoldable pub has_bolt11_prefix : Text → Bool
unfolding starts_with
has_bolt11_prefix s = any (λ p. starts_with p s) bolt11_prefixes

unfoldable pub has_onchain_prefix : Text → Bool
unfolding starts_with
has_onchain_prefix s = any (λ p. starts_with p s) onchain_prefixes

-- The class of a label of a host: letters, digits and the hyphen.
abbrev is_label_char : ℕ → Bool
is_label_char c =
    leb b'a' c && leb c b'z' || leb b'A' c && leb c b'Z' || leb b'0' c && leb c b'9' || c == b'-'

abbrev is_user_char : ℕ → Bool
is_user_char c = is_label_char c || c == b'.' || c == b'_'

-- The part of the pattern behind the "@": labels, none of them empty, with a dot between two of
-- them, and at least one dot.
unfoldable pub matches_host : Bool → Bool → Bool → Text → Bool
matches_host so_far labelled dotted [] = so_far && (labelled && dotted)
matches_host so_far labelled dotted (c ∷ s) =
    matches_host (so_far && (if c == b'.' then labelled else is_label_char c)) (not (c == b'.'))
      (dotted || c == b'.') s

-- The pattern from a place before the "@" on.
unfoldable pub matches_from : Bool → Bool → Text → Bool
unfolding matches_host
matches_from so_far started [] = false
matches_from so_far started (c ∷ s) =
    let rest = matches_from (so_far && is_user_char c) true s in
    if c == b'@' then so_far && (started && matches_host true false false s) else rest

-- `_LN_ADDRESS_RE.match`
unfoldable pub is_ln_address : Text → Bool
unfolding matches_from
is_ln_address s = matches_from true false s

unfoldable pub detect_network : Text → WithdrawalNetwork
unfolding has_bolt11_prefix is_ln_address has_onchain_prefix strip lower starts_with
detect_network destination =
    let s = lower (strip destination) in
    if is_empty destination
    then unknown
    else if has_bolt11_prefix s
    then lightning
    else if starts_with (codes "lnurl") s
    then lnurl
    else if is_ln_address (strip destination)
    then lightning_address
    else if has_onchain_prefix s
    then bitcoin
    else unknown

abbrev pub is_flavored : WithdrawalNetwork → Bool
is_flavored lightning = true
is_flavored lnurl = true
is_flavored lightning_address = true
is_flavored bitcoin = false
is_flavored unknown = false

unfoldable pub is_lightning : Text → Bool
unfolding detect_network
is_lightning destination = is_flavored (detect_network destination)

-- What the host says of an address. A bound that is missing is 0.
pub record PayMetadata : Type 0 where
  pub is_pay_request : Bool
  pub min_sendable : ℤ
  pub max_sendable : ℤ
  pub callback : Option Text

-- The answer to the callback: whether its status is "ERROR", and its `pr`.
pub record CallbackAnswer : Type 0 where
  pub is_error : Bool
  pub invoice : Option Text

abbrev pub text_or_empty : Option Text → Text
text_or_empty none = []
text_or_empty (some t) = t

abbrev pub is_zero : ℤ → Bool
is_zero z = magnitude z == 0

-- `min_msat and msat < min_msat`, and the like for the maximum
abbrev pub is_outside : PayMetadata → ℤ → Bool
is_outside m msat =
    not (is_zero m.min_sendable) && ltb_ℤ msat m.min_sendable
    || not (is_zero m.max_sendable) && ltb_ℤ m.max_sendable msat

-- `none` is a ValueError.
abbrev pub checked_invoice : Option CallbackAnswer → Option Text
checked_invoice none = none
checked_invoice (some a) =
    if a.is_error
    then none
    else if is_empty (text_or_empty a.invoice)
        || not (has_bolt11_prefix (lower (text_or_empty a.invoice)))
    then none
    else some (text_or_empty a.invoice)

abbrev pub on_callback : (Text → ℤ → Option CallbackAnswer) → Option Text → ℤ → Option Text
on_callback call none msat = none
on_callback call (some url) msat = if is_empty url then none else checked_invoice (call url msat)

abbrev pub on_metadata : (Text → ℤ → Option CallbackAnswer) → Option PayMetadata → ℤ → Option Text
on_metadata call none msat = none
on_metadata call (some m) msat =
    if not m.is_pay_request
    then none
    else if is_outside m msat
    then none
    else on_callback call m.callback msat

-- `lookup user host` is what the host's well-known path answers, and `none` stands for each way in
-- which this fails.
module _ (lookup : Text → Text → Option PayMetadata) (call : Text → ℤ → Option CallbackAnswer) where
  -- `_resolve_lightning_address`
  unfoldable pub resolve_lightning_address : Text → ℕ → Option Text
  unfolding before_char after_char has_bolt11_prefix lower
  resolve_lightning_address address amount_sat =
      let user = before_char b'@' address in
      let host = after_char b'@' address in
      if is_empty user || is_empty host
      then none
      else on_metadata call (lookup user host) (pos (amount_sat * 1000))

  abbrev pub resolve_on : WithdrawalNetwork → Text → ℕ → Option Text
  resolve_on lightning destination amount_sat = some (strip destination)
  resolve_on lightning_address destination amount_sat =
      resolve_lightning_address (strip destination) amount_sat
  resolve_on lnurl destination amount_sat = none
  resolve_on bitcoin destination amount_sat = none
  resolve_on unknown destination amount_sat = none

  unfoldable pub resolve_to_invoice : Text → ℤ → Option Text
  unfolding resolve_lightning_address detect_network strip
  resolve_to_invoice destination amount_sat =
      if leb_ℤ amount_sat (pos 0)
      then none
      else resolve_on (detect_network destination) destination (magnitude amount_sat)
