-- ===== src/Core/Value.antt =====
-- The values of `Record<string, unknown>`, as the services build and read them.
-- A number is a finite double, which is exactly a sign, a mantissa and a power of two below it:
-- `mantissa / 2 ^ shift`. The text `d.toISOString()` is kept as the date `d`, by `iso`.
use Prim.Native.String
use realtime_ops_platform.Prelude.{
  ℕ, zero, suc, ◌*◌, ◌/◌, ◌%◌, ◌^◌, String, Bool, false, ◌&&◌, Option, none, some, leb, ◌==◌,
  str_eq, if◌then◌else◌, ◌≡◌, refl,
}

pub record Number : Type 0 where
  pub negative : Bool
  pub mantissa : ℕ
  pub shift : ℕ

mutual
  pub data Value : Type 0 where
    undefined null : Value
    bool : Bool → Value
    num : Number → Value
    str : String → Value
    iso : ℕ → Value
    arr : Values → Value
    obj : Fields → Value

  pub data Values : Type 0 where
    nil : Values
    cons : Value → Values → Values

  -- the own properties of an object
  pub data Fields : Type 0 where
    end : Fields
    field : String → Value → Fields → Fields

-- `o.key`, `undefined` when there is no such property
unfoldable pub get : String → Fields → Value
get key end = undefined
get key (field k v rest) = if str_eq k key then v else get key rest

abbrev pub natural : ℕ → Number
natural n = record { negative = false; mantissa = n; shift = 0 }

abbrev pub int : ℕ → Value
int n = num (natural n)

-- `x ?? null` on an optional text
abbrev pub str_or_null : Option String → Value
str_or_null none = null
str_or_null (some s) = str s

-- `n <= x` for a number `n` that is an integer from 0 up
abbrev pub le_number : ℕ → Number → Bool
le_number n x = if x.negative then n == 0 && x.mantissa == 0 else leb (n * 2 ^ x.shift) x.mantissa

-- `${n}` for an integer from 0 up: its decimal digits.
digit : ℕ → String
digit zero = "0"
digit (suc zero) = "1"
digit (suc (suc zero)) = "2"
digit (suc (suc (suc zero))) = "3"
digit (suc (suc (suc (suc zero)))) = "4"
digit (suc (suc (suc (suc (suc zero))))) = "5"
digit (suc (suc (suc (suc (suc (suc zero)))))) = "6"
digit (suc (suc (suc (suc (suc (suc (suc zero))))))) = "7"
digit (suc (suc (suc (suc (suc (suc (suc (suc zero)))))))) = "8"
digit _ = "9"

-- The fuel is the number itself, which has no more digits than that.
digits : ℕ → ℕ → String
unfolding digit
digits zero n = digit (n % 10)
digits (suc fuel) n =
    let more = String.◌++◌ (digits fuel (n / 10)) (digit (n % 10)) in
    if leb n 9 then digit n else more

unfoldable pub decimal : ℕ → String
unfolding digits
decimal n = digits n n

decimal_test : decimal 1203 ≡ "1203"
unfolding decimal
decimal_test = refl
