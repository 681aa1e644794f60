-- ===== src/Drivers/Sdcard.antt =====
-- kernel/src/drivers/block/sdcard.rs: an SD card on the SPI bus of the K210. The bus is what the
-- program gives to and gets from the `spi` and `gpiohs` of the crate k210-soc: the bytes that the card
-- puts on the line are a function from how many came before, and what the driver does is kept as a
-- list of events, the last one first.
pub mod Registers
pub mod Protocol
pub mod Sectors
pub mod Init
pub mod Answers
pub mod Total
pub mod Transfer
pub mod Reports
pub mod Select
pub mod Fields
mod Tests
use hecto_os.Base.{
  ℕ, zero, suc, ◌+◌, ◌*◌, ◌/◌, ◌%◌, ◌≡◌, refl, ap, Bool, true, false, Option, none, some, List, [],
  ◌∷◌,
}

pub data Event : Type 0 where
  chip_select : Bool → Event
  clk_rate : ℕ → Event
  output_direction : Event
  sent : List ℕ → Event

pub record Bus : Type 0 where
  pub incoming : ℕ → ℕ
  pub position : ℕ
  pub log : List Event

-- `none` is a panic, or a wait that does not end.
abbrev pub M : Type 0 → Type 0
M A = Bus → Option (A × Bus)

abbrev pub pure : {A : Type 0} → A → M A
pure a s = some (a, s)

infixl 5 ◌>>=◌ ◌>>◌
unfoldable pub ◌>>=◌ : {A B : Type 0} → M A → (A → M B) → M B
◌>>=◌ m f s = elim (m s) [ none ↦ none | some (a, s') ↦ f a s' ]

abbrev pub ◌>>◌ : {A B : Type 0} → M A → M B → M B
m >> k = m >>= λ _. k

abbrev pub panic : {A : Type 0} → M A
panic s = none

pub data Result (A E : Type 0) : Type 0 where
  ok : A → Result A E
  err : E → Result A E

-- What a step that has a result did first.
then-eq-some :
    {A B : Type 0} (o : Option (A × Bus)) (f : A → M B) {r : B × Bus}
    → elim o [ none ↦ none | some (a, s') ↦ f a s' ] ≡ some r
    → (a : A) × (s' : Bus) × (o ≡ some (a, s')) × (f a s' ≡ some r)
then-eq-some none f h = cc
then-eq-some (some (a, s')) f h = (a, s', refl, h)

pub >>=-eq-some :
    {A B : Type 0} (m : M A) (f : A → M B) {s : Bus} {r : B × Bus}
    → (m >>= f) s ≡ some r
    → (a : A) × (s' : Bus) × (m s ≡ some (a, s')) × (f a s' ≡ some r)
unfolding ◌>>=◌
>>=-eq-some m f {s} h = then-eq-some (m s) f h

-- A step whose result is known.
pub >>=-some :
    {A B : Type 0} (m : M A) (f : A → M B) {s : Bus} {a : A} {s' : Bus}
    → m s ≡ some (a, s')
    → (m >>= f) s ≡ f a s'
unfolding ◌>>=◌
>>=-some {A} {B} m f e =
    ap
      (λ (o : Option (A × Bus)). elim o as (λ _. Option (B × Bus)) [
        | none ↦ none
        | some (a, s') ↦ f a s'
      ])
      e

-- the calls of `spi` and `gpiohs`
abbrev event : Event → M (Unit {0})
event e s = some (tt, record s { log = e ∷ s.log })

abbrev pub set_pin : Bool → M (Unit {0})
set_pin level = event (chip_select level)

abbrev pub set_clk_rate : ℕ → M (Unit {0})
set_clk_rate rate = event (clk_rate rate)

abbrev pub set_direction : M (Unit {0})
set_direction = event output_direction

abbrev pub send_data : List ℕ → M (Unit {0})
send_data bytes = event (sent bytes)

unfoldable pub bytes_at : (ℕ → ℕ) → ℕ → ℕ → List ℕ
bytes_at incoming position zero = []
bytes_at incoming position (suc n) = incoming position ∷ bytes_at incoming (suc position) n

abbrev pub recv_data : ℕ → M (List ℕ)
recv_data n s = some (bytes_at s.incoming s.position n, record s { position = s.position + n })
