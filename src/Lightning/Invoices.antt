-- ===== src/Lightning/Invoices.antt =====
-- What can come of a Lightning destination.
use bitcoiners_dca.Prelude.{
  ℕ, ◌*◌, ◌≡◌, refl, sym, ◌∙◌, ap, ◌⊎◌, inl, inr, Bool, true, false, ◌||◌, Option, none, some,
  some-inj, Bool-cases, if◌then◌else◌, arith,
}
use bitcoiners_dca.Prelude.Int.{ℤ, pos, magnitude, ◌≤ℤ◌, ◌<ℤ◌, leb_ℤ}
use bitcoiners_dca.Prelude.Text.{Text, codes, strip, lower, before_char, after_char, is_empty}
use bitcoiners_dca.Lightning.{
  text_or_empty, PayMetadata, CallbackAnswer, is_outside, checked_invoice, on_callback, on_metadata,
  has_bolt11_prefix, resolve_lightning_address, resolve_on, detect_network, resolve_to_invoice,
  WithdrawalNetwork, lightning, lnurl, lightning_address, bitcoin, unknown,
}

invoice_found : detect_network (codes "  LNBC1pvjluez") ≡ lightning
unfolding detect_network
invoice_found = refl

address_found : detect_network (codes "satoshi@walletofsatoshi.com") ≡ lightning_address
unfolding detect_network
address_found = refl

dotless_host : detect_network (codes "satoshi@localhost") ≡ unknown
unfolding detect_network
dotless_host = refl

onchain_found : detect_network (codes "bc1qar0srrr7xfkvy5l643") ≡ bitcoin
unfolding detect_network
onchain_found = refl

-- A user's name that begins like an invoice is taken for one.
name_taken_for_invoice : detect_network (codes "lnbcfan@getalby.com") ≡ lightning
unfolding detect_network
name_taken_for_invoice = refl

only_by_prefix :
    (e b l a o : Bool)
    → (if e
        then unknown
        else if b
        then lightning
        else if l
        then lnurl
        else if a
        then lightning_address
        else if o
        then bitcoin
        else unknown)
      ≡ lightning
    → b ≡ true
only_by_prefix e true l a o h = refl
only_by_prefix e false l a o h = absurd (ground arith)

detect_network-bolt11 :
    (d : Text) → detect_network d ≡ lightning → has_bolt11_prefix (lower (strip d)) ≡ true
unfolding detect_network
detect_network-bolt11 d h = only_by_prefix _ _ _ _ _ h

-- The metadata is of a pay request, and its bounds, as far as they are set, hold the amount.
abbrev pub Allows : PayMetadata → ℤ → Type 0
Allows m msat =
    (m.is_pay_request ≡ true)
    × ((m.min_sendable ≡ pos 0) ⊎ (m.min_sendable ≤ℤ msat))
    × ((m.max_sendable ≡ pos 0) ⊎ (msat ≤ℤ m.max_sendable))

-- What the callback of the metadata, asked for the amount in millisatoshis, answers: no error, and
-- the invoice.
abbrev pub Answers : (Text → ℤ → Option CallbackAnswer) → Option Text → ℤ → Text → Type 0
Answers call callback msat inv =
    (url : Text) × (callback ≡ some url)
    × (a : CallbackAnswer) × (call url msat ≡ some a)
    × (a.is_error ≡ false)
    × (a.invoice ≡ some inv)

-- The host of an address answers with metadata that allow the amount, and the callback that these
-- name answers with the invoice.
abbrev pub Agrees :
    (Text → Text → Option PayMetadata)
    → (Text → ℤ → Option CallbackAnswer)
    → Text
    → ℕ
    → Text
    → Type 0
Agrees lookup call address amount_sat inv =
    (m : PayMetadata) × (lookup (before_char b'@' address) (after_char b'@' address) ≡ some m)
    × Allows m (pos (amount_sat * 1000))
    × Answers call m.callback (pos (amount_sat * 1000)) inv

not_outside :
    (m : PayMetadata) (msat : ℤ)
    → m.is_pay_request ≡ true
    → is_outside m msat ≡ false
    → Allows m msat
not_outside m msat p h = ground arith

checked-bolt11 :
    (a : Option CallbackAnswer) (inv : Text)
    → checked_invoice a ≡ some inv
    → has_bolt11_prefix (lower inv) ≡ true
checked-bolt11 none inv h = absurd (cc)
checked-bolt11 (some a) inv h = ground arith

invoice_given :
    (invoice : Option Text) (inv : Text) (b : Bool)
    → (if is_empty (text_or_empty invoice) || b then none else some (text_or_empty invoice))
      ≡ some inv
    → invoice ≡ some inv
invoice_given none inv b h = absurd (cc)
invoice_given (some t) inv b h = ground arith

checked_invoice-eq_some :
    (a : CallbackAnswer) (inv : Text)
    → checked_invoice (some a) ≡ some inv
    → (a.is_error ≡ false) × (a.invoice ≡ some inv)
checked_invoice-eq_some a inv h = elim (Bool-cases a.is_error) [
  | inl e ↦ absurd (let h' : none ≡ some inv = rw e at h in cc)
  | inr e ↦ (e, invoice_given a.invoice inv _ (rw e at h))
]

callback-Answers :
    (call : Text → ℤ → Option CallbackAnswer) (url : Text) (msat : ℤ) (inv : Text)
    (answer : Option CallbackAnswer)
    → call url msat ≡ answer
    → checked_invoice answer ≡ some inv
    → Answers call (some url) msat inv
callback-Answers call url msat inv none asked h = absurd (cc)
callback-Answers call url msat inv (some a) asked h =
    let (good, given) = checked_invoice-eq_some a inv h in (url, refl, a, asked, good, given)

on_callback-Answers :
    (call : Text → ℤ → Option CallbackAnswer) (callback : Option Text) (msat : ℤ) (inv : Text)
    → on_callback call callback msat ≡ some inv
    → Answers call callback msat inv
on_callback-Answers call none msat inv h = absurd (cc)
on_callback-Answers call (some url) msat inv h = elim (Bool-cases (is_empty url)) [
  | inl e ↦ absurd (let h' : none ≡ some inv = rw e at h in cc)
  | inr e ↦ callback-Answers call url msat inv (call url msat) refl (rw e at h)
]

on_callback-bolt11 :
    (call : Text → ℤ → Option CallbackAnswer) (url : Option Text) (msat : ℤ) (inv : Text)
    → on_callback call url msat ≡ some inv
    → has_bolt11_prefix (lower inv) ≡ true
on_callback-bolt11 call none msat inv h = absurd (cc)
on_callback-bolt11 call (some url) msat inv h = elim (Bool-cases (is_empty url)) [
  | inl e ↦ absurd (let h' : none ≡ some inv = rw e at h in cc)
  | inr e ↦ checked-bolt11 (call url msat) inv (rw e at h)
]

on_metadata-Allows :
    (call : Text → ℤ → Option CallbackAnswer) (m : PayMetadata) (msat : ℤ) (inv : Text)
    → on_metadata call (some m) msat ≡ some inv
    → Allows m msat × Answers call m.callback msat inv × (has_bolt11_prefix (lower inv) ≡ true)
on_metadata-Allows call m msat inv h = elim (Bool-cases m.is_pay_request) [
  | inr e ↦ absurd (ground arith)
  | inl e ↦ elim (Bool-cases (is_outside m msat)) [
    | inl o ↦ absurd (ground arith)
    | inr o ↦
        let asked : on_callback call m.callback msat ≡ some inv = ground arith in
        (
          not_outside m msat e o,
          on_callback-Answers call m.callback msat inv asked,
          on_callback-bolt11 call m.callback msat inv asked,
        )
  ]
]

-- The invoice is the destination itself, or it comes from the host of a Lightning address.
abbrev pub ComesFrom :
    (Text → Text → Option PayMetadata)
    → (Text → ℤ → Option CallbackAnswer)
    → Text
    → ℕ
    → Text
    → Type 0
ComesFrom lookup call destination amount_sat inv =
    (inv ≡ strip destination) ⊎ Agrees lookup call (strip destination) amount_sat inv

module _ (lookup : Text → Text → Option PayMetadata) (call : Text → ℤ → Option CallbackAnswer)
    (inv : Text) where
  on_lookup :
      (answer : Option PayMetadata) (msat : ℤ)
      → on_metadata call answer msat ≡ some inv
      → (m : PayMetadata) × (answer ≡ some m)
        × Allows m msat
        × Answers call m.callback msat inv
        × (has_bolt11_prefix (lower inv) ≡ true)
  on_lookup none msat h = absurd (cc)
  on_lookup (some m) msat h =
      let (allows, answers, prefix) = on_metadata-Allows call m msat inv h in
      (m, refl, allows, answers, prefix)

  resolve_address-Agrees :
      (address : Text) (amount_sat : ℕ)
      → resolve_lightning_address lookup call address amount_sat ≡ some inv
      → Agrees lookup call address amount_sat inv × (has_bolt11_prefix (lower inv) ≡ true)
  unfolding resolve_lightning_address
  resolve_address-Agrees address amount_sat h =
      let user = before_char b'@' address in
      let host = after_char b'@' address in
      elim (Bool-cases (is_empty user || is_empty host)) [
        | inl e ↦ absurd (let h' : none ≡ some inv = rw e at h in cc)
        | inr e ↦
            let (m, found, allows, answers, prefix) = on_lookup (lookup user host) _ (rw e at h) in
            ((m, found, allows, answers), prefix)
      ]

  resolve_on-ComesFrom :
      (network : WithdrawalNetwork) (destination : Text) (amount_sat : ℕ)
      → detect_network destination ≡ network
      → resolve_on lookup call network destination amount_sat ≡ some inv
      → ComesFrom lookup call destination amount_sat inv × (has_bolt11_prefix (lower inv) ≡ true)
  resolve_on-ComesFrom lightning destination amount_sat d h =
      let same : inv ≡ strip destination = sym (some-inj h) in
      (inl same, ap (λ t. has_bolt11_prefix (lower t)) same ∙ detect_network-bolt11 destination d)
  resolve_on-ComesFrom lightning_address destination amount_sat d h =
      let (agrees, prefix) = resolve_address-Agrees (strip destination) amount_sat h in
      (inr agrees, prefix)
  resolve_on-ComesFrom lnurl destination amount_sat d h = absurd (cc)
  resolve_on-ComesFrom bitcoin destination amount_sat d h = absurd (cc)
  resolve_on-ComesFrom unknown destination amount_sat d h = absurd (cc)

  -- Whatever the hosts answer, a text that comes of a destination has the prefix of an invoice, the
  -- amount is positive, and the text is the destination itself, or the host of the Lightning
  -- address answered with a pay request whose bounds hold the amount, and the callback that it
  -- names, asked for the amount times 1,000, answered with this text.
  pub resolve_to_invoice-ComesFrom :
      (destination : Text) (amount_sat : ℤ)
      → resolve_to_invoice lookup call destination amount_sat ≡ some inv
      → (pos 0 <ℤ amount_sat)
        × ComesFrom lookup call destination (magnitude amount_sat) inv
        × (has_bolt11_prefix (lower inv) ≡ true)
  unfolding resolve_to_invoice
  resolve_to_invoice-ComesFrom destination amount_sat h =
      elim (Bool-cases (leb_ℤ amount_sat (pos 0))) [
        | inl e ↦ absurd (let h' : none ≡ some inv = rw e at h in cc)
        | inr e ↦
            let (from, prefix) =
              resolve_on-ComesFrom (detect_network destination) destination (magnitude amount_sat)
                refl (rw e at h) in
            (ground arith, from, prefix)
      ]
