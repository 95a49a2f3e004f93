-- ===== src/Value/Equality.antt =====
-- Python's `==` on the values, and that every value equals itself where no key stands twice.
use nortropic_runtime.Prelude.{
  ℕ, suc, String, ◌≡◌, refl, Bool, true, false, Option, none, some, ◌&&◌, ◌==◌, str_eq,
  if◌then◌else◌,
}

-- `negsuc n` is -(n + 1).
pub data ℤ : Type 0 where
  pos : ℕ → ℤ
  negsuc : ℕ → ℤ

abbrev pub is_zero : ℤ → Bool
is_zero (pos n) = n == 0
is_zero (negsuc n) = false

abbrev pub eq_ℤ : ℤ → ℤ → Bool
eq_ℤ (pos m) (pos n) = m == n
eq_ℤ (negsuc m) (negsuc n) = m == n
eq_ℤ _ _ = false

mutual
  pub data Value : Type 0 where
    null : Value
    bool : Bool → Value
    int : ℤ → Value
    text : String → Value
    list : Items → Value
    dict : Fields → Value

  pub data Items : Type 0 where
    nil : Items
    cons : Value → Items → Items

  pub data Fields : Type 0 where
    end : Fields
    field : String → Value → Fields → Fields

unfoldable pub find_field : String → Fields → Option Value
find_field k end = none
find_field k (field j v fs) = if str_eq j k then some v else find_field k fs

abbrev pub count_fields : Fields → ℕ
count_fields end = 0
count_fields (field _ _ fs) = suc (count_fields fs)

-- The number that a Boolean or an integer stands for.
abbrev pub number : Value → Option ℤ
number (bool true) = some (pos 1)
number (bool false) = some (pos 0)
number (int n) = some n
number _ = none

abbrev eq_number : Option ℤ → Option ℤ → Bool
eq_number (some m) (some n) = eq_ℤ m n
eq_number _ _ = false

abbrev check_field : Option Value → (Value → Bool) → Bool
check_field none test = false
check_field (some v) test = test v

unfoldable mutual
  pub eq : Value → Value → Bool
  eq null null = true
  eq null _ = false
  eq (bool b) w = eq_number (number (bool b)) (number w)
  eq (int n) w = eq_number (some n) (number w)
  eq (text s) (text t) = str_eq s t
  eq (text s) _ = false
  eq (list vs) (list ws) = eq_items vs ws
  eq (list vs) _ = false
  eq (dict fs) (dict gs) = count_fields fs == count_fields gs && eq_fields fs gs
  eq (dict fs) _ = false

  pub eq_items : Items → Items → Bool
  eq_items nil nil = true
  eq_items nil (cons _ _) = false
  eq_items (cons v vs) nil = false
  eq_items (cons v vs) (cons w ws) = eq v w && eq_items vs ws

  -- Every field of the first is a field of the second, with an equal value.
  pub eq_fields : Fields → Fields → Bool
  eq_fields end gs = true
  eq_fields (field k v fs) gs = check_field (find_field k gs) (eq v) && eq_fields fs gs

eq_samples :
    (eq (bool true) (int (pos 1)) ≡ true)
    × (eq
          (dict (field "a" null (field "b" (int (pos 2)) end)))
          (dict (field "b" (int (pos 2)) (field "a" null end)))
        ≡ true)
    × (eq (text "a") null ≡ false)
unfolding eq find_field
eq_samples = (refl, refl, refl)

-- `d[k] = v`
unfoldable pub put_field : Fields → String → Value → Fields
put_field end k v = field k v end
put_field (field j w fs) k v = if str_eq j k then field j v fs else field j w (put_field fs k v)
