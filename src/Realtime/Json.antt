-- ===== src/Realtime/Json.antt =====
-- The JSON values that Hermes and the browser send, with the tests that Python makes of them.
pub mod Put
use hermes_voice_console.Prelude.{
  ℕ, zero, suc, Bool, true, false, not, ◌&&◌, ◌||◌, Option, none, some, List, [], ◌∷◌, Text,
  text_Eq, ◌==◌, nat_eq, if◌then◌else◌, Result, ok, err,
}
use hermes_voice_console.Realtime.{Exn, type_error}

-- `negative n` is the integer -(n + 1). `decimal whole literal` is a float: the natural number that it
-- equals, if it equals one, and its text.
mutual
  pub data Json : Type 0 where
    null : Json
    boolean : Bool → Json
    integer negative : ℕ → Json
    decimal : Option ℕ → Text → Json
    text : Text → Json
    array : Items → Json
    object : Fields → Json

  pub data Items : Type 0 where
    nil : Items
    cons : Json → Items → Items

  pub data Fields : Type 0 where
    end : Fields
    field : Text → Json → Fields → Fields

-- `d.get(k)`
unfoldable pub get : Fields → Text → Json
get end k = null
get (field j v d) k = if j == k then v else get d k

unfoldable pub has_key : Fields → Text → Bool
has_key end k = false
has_key (field j v d) k = j == k || has_key d k

-- `d[k] = v`
unfoldable pub put : Fields → Text → Json → Fields
put end k v = field k v end
put (field j w d) k v = let rest = put d k v in if j == k then field j v d else field j w rest

unfoldable pub items_length : Items → ℕ
items_length nil = 0
items_length (cons v vs) = suc (items_length vs)

-- `value[:n]`
unfoldable pub take_items : ℕ → Items → Items
take_items zero vs = nil
take_items (suc n) nil = nil
take_items (suc n) (cons v vs) = cons v (take_items n vs)

-- `t in names`, for a text
unfoldable pub one_of : List Text → Text → Bool
one_of [] t = false
one_of (n ∷ ns) t = n == t || one_of ns t

keys_among : List Text → Fields → Bool
keys_among ns end = true
keys_among ns (field k v d) = one_of ns k && keys_among ns d

all_keys : List Text → Fields → Bool
all_keys [] d = true
all_keys (n ∷ ns) d = has_key d n && all_keys ns d

-- `set(d) == names`
unfoldable pub same_keys : Fields → List Text → Bool
unfolding keys_among all_keys
same_keys d ns = keys_among ns d && all_keys ns d

-- `v == t`, for a text `t`
abbrev pub equals_text : Json → Text → Bool
equals_text (text u) t = u == t
equals_text _ t = false

-- `v == n`, for an integer `n`: `True` is 1, and a float may be a whole number.
abbrev pub equals_nat : Json → ℕ → Bool
equals_nat (integer m) n = nat_eq m n
equals_nat (boolean true) n = nat_eq 1 n
equals_nat (boolean false) n = nat_eq 0 n
equals_nat (decimal (some m) literal) n = nat_eq m n
equals_nat _ n = false

-- `v is True`
abbrev pub is_true : Json → Bool
is_true (boolean b) = b
is_true _ = false

-- `v is False`
abbrev pub is_false : Json → Bool
is_false (boolean b) = not b
is_false _ = false

abbrev pub is_null : Json → Bool
is_null null = true
is_null _ = false

-- `bool(v)`
abbrev pub truthy : Json → Bool
truthy null = false
truthy (boolean b) = b
truthy (integer n) = not (nat_eq n 0)
truthy (negative n) = true
truthy (decimal (some n) literal) = not (nat_eq n 0)
truthy (decimal none literal) = true
truthy (text t) = not (t == [])
truthy (array nil) = false
truthy (array (cons v vs)) = true
truthy (object end) = false
truthy (object (field k v d)) = true

-- `v in names`, which raises for a list or an object; the text, if it is one of the names
abbrev pub name_in : List Text → Json → Result Exn (Option Text)
name_in ns (text t) = ok (if one_of ns t then some t else none)
name_in ns (array vs) = err type_error
name_in ns (object d) = err type_error
name_in ns _ = ok none

-- `v in {None, t}`, for a text `t`
abbrev pub absent_or : Text → Json → Result Exn Bool
absent_or t null = ok true
absent_or t (text u) = ok (u == t)
absent_or t (array vs) = err type_error
absent_or t (object d) = err type_error
absent_or t _ = ok false

-- `str(v)`; `show` is Python's `str` on what is not a text
abbrev pub str_of : (Json → Text) → Json → Text
str_of show (text t) = t
str_of show v = show v
