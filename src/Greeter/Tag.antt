-- ===== src/Greeter/Tag.antt =====
-- The completion queue's tags (grpcdemo/server_async.cc, tagify and detagify). A `void*` is the
-- 64-bit number that it is cast from.
mod Tests
use cpp_demo.Prelude.{
  ℕ, ◌+◌, ◌-◌, ◌*◌, ◌/◌, ◌%◌, ◌^◌, ◌<◌, ◌≡◌, ◌↔◌, sym, ap, ◌∙◌, ap₂, refl, bit_and, bit_or,
  bit_and_three, bit_or_low, arith, if◌then◌else◌, ◌==◌,
}

pub data SessionEvent : Type 0 where
  connected read_done write_done finished : SessionEvent

abbrev session_event_bit_length : ℕ
session_event_bit_length = 2

abbrev session_event_mask : ℕ
session_event_mask = 2 ^ session_event_bit_length - 1

abbrev pub u64_mod : ℕ
u64_mod = 2 ^ 64

-- The numbers that the enumeration gives its members.
event_code : SessionEvent → ℕ
event_code connected = 0
event_code read_done = 1
event_code write_done = 2
event_code finished = 3

-- The cast back. Only the numbers up to the mask, 3, are cast.
event_of : ℕ → SessionEvent
event_of n =
    if n == 0
    then connected
    else if n == 1
    then read_done
    else if n == 2
    then write_done
    else finished

unfoldable pub tagify : ℕ → SessionEvent → ℕ
unfolding event_code
tagify session_id event =
    bit_or (session_id * 2 ^ session_event_bit_length % u64_mod) (event_code event)

unfoldable pub detagify : ℕ → ℕ × SessionEvent
unfolding event_of
detagify value = (value / 2 ^ session_event_bit_length, event_of (bit_and value session_event_mask))

event_code-lt : (e : SessionEvent) → event_code e < 4
unfolding event_code
event_code-lt e = ground arith

event_of-event_code : (e : SessionEvent) → event_of (event_code e) ≡ e
unfolding event_of event_code
event_of-event_code connected = refl
event_of-event_code read_done = refl
event_of-event_code write_done = refl
event_of-event_code finished = refl

-- A tag is four times the identifier's 62 low bits, plus the event.
tagify_sum : (i : ℕ) (e : SessionEvent) → tagify i e ≡ i % 2 ^ 62 * 4 + event_code e
unfolding tagify
tagify_sum i e =
    let high : i * 4 % 2 ^ 64 ≡ i % 2 ^ 62 * 4 = omega arith in
    ap₂ bit_or high refl ∙ bit_or_low (i % 2 ^ 62) (event_code e) (event_code-lt e)

-- Taking a tag apart gives back the event, and the identifier but for its two high bits.
pub detagify-tagify : (i : ℕ) (e : SessionEvent) → detagify (tagify i e) ≡ (i % 2 ^ 62, e)
unfolding detagify
detagify-tagify i e =
    let masked : bit_and (tagify i e) 3 ≡ event_code e =
      omega (arith, tagify_sum i e, event_code-lt e, bit_and_three (tagify i e)) in
    ap₂ (λ a b. (a, b)) (omega (arith, tagify_sum i e, event_code-lt e))
      (ap event_of masked ∙ event_of-event_code e)

-- So it is a round trip for the identifiers below 2 ^ 62.
pub detagify_small : (i : ℕ) (e : SessionEvent) → i < 2 ^ 62 → detagify (tagify i e) ≡ (i, e)
detagify_small i e h = detagify-tagify i e ∙ ap₂ (λ a b. (a, b)) (omega arith) refl

-- Every 64-bit number is the tag of the two parts that it is taken apart into.
pub tagify-detagify : (t : ℕ) → t < u64_mod → tagify (detagify t).0 (detagify t).1 ≡ t
unfolding detagify event_code event_of
tagify-detagify t h = ground (arith, tagify_sum (t / 4) (event_of (t % 4)), bit_and_three t)

-- Two tags are equal exactly when the events are, and the identifiers agree in their 62 low bits.
pub tagify-injective :
    (i j : ℕ) (e f : SessionEvent)
    → (tagify i e ≡ tagify j f) ↔ ((i % 2 ^ 62 ≡ j % 2 ^ 62) × (e ≡ f))
tagify-injective i j e f = (
  λ h.
      let both = sym (detagify-tagify i e) ∙ ap detagify h ∙ detagify-tagify j f in
      (ap (λ p. p.0) both, ap (λ p. p.1) both),
  λ h. tagify_sum i e ∙ ap₂ (λ a b. a * 4 + b) h.0 (ap event_code h.1) ∙ sym (tagify_sum j f),
)
