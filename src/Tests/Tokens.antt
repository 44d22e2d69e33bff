-- ===== src/Tests/Tokens.antt =====
-- The token encryption and the bots at concrete inputs: a cipher that hides nothing, on concrete
-- codes of bytes and texts.
use tgplane.Common.{
  if◌then◌else◌, ◌==◌, string_key, nat_key, ℕ, zero, suc, ◌+◌, ◌<◌, ◌^◌, String, List, [], ◌∷◌,
  Option, none, some, map, ok, ◌≡◌, ◌≢◌, same?_ne, refl, sym, ap, ◌∙◌, arith, length, replicate,
}
use Prim.Native.Nat.{Ordering, compare}
use Prim.Native.Char.{Char, char, code, nul, IsScalar, IsLt}
use text.Mathlib.TextBridge.{to_list, of_list, of_list-to_list, to_list-of_list}
use text.Mathlib.TextEquality.{Char-path}
use tgplane.Common.Map.{lookup, insert}
use tgplane.Crypto.{Primitives, TokenEncryptor, enabled, encrypt, decrypt}
use tgplane.Repository.{Repository, new_repository, create, store_row}
use tgplane.Repository.Invariant.{IsValid, new_repository-IsValid}
use tgplane.Repository.Writes.{creates, write, write-IsValid}
use tgplane.Bot.{Bot, Profile, new_bot, add}
use tgplane.Bot.Tokens.{encrypted_duplicate}
use mathlib.Core.Option.{some-injective}
use tgplane.Crypto.Roundtrip.{decrypt-encrypt}

-- The two ranges of the scalar values, as `IsScalar` tests them.
abbrev UpperRange : Ordering → Ordering → Type 0
UpperRange Ordering.lt o = IsLt o
UpperRange Ordering.eq _ = ⊥
UpperRange Ordering.gt _ = ⊥

abbrev InRanges : Ordering → Ordering → Ordering → Type 0
InRanges Ordering.lt _ _ = Unit
InRanges Ordering.eq o p = UpperRange o p
InRanges Ordering.gt o p = UpperRange o p

below? : (o : Ordering) → Dec (IsLt o)
below? Ordering.lt = yes tt
below? Ordering.eq = no (λ x. x)
below? Ordering.gt = no (λ x. x)

upper? : (o p : Ordering) → Dec (UpperRange o p)
upper? Ordering.lt p = below? p
upper? Ordering.eq p = no (λ x. x)
upper? Ordering.gt p = no (λ x. x)

in_ranges? : (o p q : Ordering) → Dec (InRanges o p q)
in_ranges? Ordering.lt p q = yes tt
in_ranges? Ordering.eq p q = upper? p q
in_ranges? Ordering.gt p q = upper? p q

pub scalar? : (n : ℕ) → Dec (IsScalar n)
scalar? n = in_ranges? (compare n 55296) (compare 57343 n) (compare n 1114112)

abbrev char_of : ℕ → Char
char_of n = elim (scalar? n) [ yes p ↦ char n p | no _ ↦ nul ]

char_of-code : (c : Char) → char_of (code c) ≡ c
char_of-code (char n p) =
    elim (scalar? n) as (λ d. elim d [ yes q ↦ char n q | no _ ↦ nul ] ≡ char n p) [
      | yes q ↦ Char-path (char n q) (char n p) refl
      | no q ↦ absurd (q p)
    ]

pub chars_of-codes : (l : List Char) → map char_of (map (λ c. code c) l) ≡ l
chars_of-codes [] = refl
chars_of-codes (c ∷ l) = rw (char_of-code c, chars_of-codes l) refl

abbrev pub bytes : String → List ℕ
bytes s = map (λ c. code c) (to_list s)

abbrev text_of : List ℕ → String
text_of b = of_list (map char_of b)

-- A number in unary, and its end.
abbrev put : ℕ → List Char → List Char
put zero cs = char 98 tt ∷ cs
put (suc n) cs = char 97 tt ∷ put n cs

abbrev pub put_all : List ℕ → List Char
put_all [] = []
put_all (n ∷ ns) = put n (put_all ns)

abbrev read_all : ℕ → List Char → List ℕ
read_all k [] = []
read_all k (c ∷ cs) = if code c == 97 then read_all (suc k) cs else k ∷ read_all 0 cs

read-put : (k n : ℕ) (cs : List Char) → read_all k (put n cs) ≡ (k + n) ∷ read_all 0 cs
read-put k zero cs = ap (λ m. m ∷ read_all 0 cs) (omega arith)
read-put k (suc n) cs = read-put (suc k) n cs ∙ ap (λ m. m ∷ read_all 0 cs) (omega arith)

pub read-put_all : (ns : List ℕ) → read_all 0 (put_all ns) ≡ ns
read-put_all [] = refl
read-put_all (n ∷ ns) =
    read-put 0 n (put_all ns)
    ∙ ap (λ m. m ∷ read_all 0 (put_all ns)) (omega arith)
    ∙ ap (◌∷◌ n) (read-put_all ns)

-- A nonce has two bytes, and a sealed text its length before it.
abbrev unseal : List ℕ → List ℕ → Option (List ℕ)
unseal nonce [] = none
unseal nonce (_ ∷ sealed) = some sealed

abbrev pub plain : Primitives
plain = record {
  Gcm = List ℕ;
  new_gcm = λ key. some key;
  nonce_size = λ g. 2;
  seal = λ g nonce b. length b ∷ b;
  unseal = λ g nonce b. unseal nonce b;
  hex_decode = λ s. some (bytes s);
  base64_encode = λ b. of_list (put_all b);
  base64_decode = λ s. some (read_all 0 (to_list s));
  bytes = bytes;
  text = text_of;
  unseal-seal = λ g nonce b h. refl;
  base64-decode_encode =
      λ b. ap (λ l. some (read_all 0 l)) (to_list-of_list (put_all b)) ∙ ap some (read-put_all b);
  text-bytes = λ s. ap of_list (chars_of-codes (to_list s)) ∙ of_list-to_list s;
}

-- A random source whose bytes are all one number.
abbrev pub random : ℕ → ℕ → Option (List ℕ)
random k n = some (replicate n k)

length-copies : (n k : ℕ) → length (replicate n k) ≡ n
length-copies zero k = refl
length-copies (suc n) k = ap suc (length-copies n k)

pub fills : (k n : ℕ) (b : List ℕ) → random k n ≡ some b → length b ≡ n
fills k n b h = ap length (sym (some-injective (replicate n k) b h)) ∙ length-copies n k

abbrev pub cipher : Option (TokenEncryptor plain)
cipher = some (enabled (1 ∷ 2 ∷ []))

abbrev encrypted : ℕ → String
encrypted k = of_list (put_all (k ∷ k ∷ length (bytes "bot") ∷ bytes "bot"))

pub encrypts : (k : ℕ) → encrypt plain (random k) cipher "bot" ≡ ok (encrypted k)
unfolding encrypt
encrypts k = refl

decrypt-encrypt_example : decrypt plain cipher (encrypted 0) ≡ ok "bot"
decrypt-encrypt_example =
    decrypt-encrypt plain cipher (random 0) "bot" (encrypted 0) (fills 0) (encrypts 0)

-- The repository with a bot of this token.
abbrev pub one : Repository Profile
one = write new_repository (creates (new_bot "u" (encrypted 0)))

pub one-IsValid : IsValid one
unfolding new_repository lookup
one-IsValid =
    write-IsValid new_repository (creates (new_bot "u" (encrypted 0))) (refl, omega arith)
      new_repository-IsValid

encrypted-differs : encrypted 0 ≢ encrypted 1
encrypted-differs p = absurd (ground (arith, both, read-put_all (mark 0), read-put_all (mark 1)))
  where
    mark : ℕ → List ℕ
    mark k = k ∷ k ∷ length (bytes "bot") ∷ bytes "bot"

    both : read_all 0 (put_all (mark 0)) ≡ read_all 0 (put_all (mark 1))
    both =
        ap (read_all 0) (sym (to_list-of_list (put_all (mark 0))))
        ∙ ap (λ t. read_all 0 (to_list t)) p
        ∙ ap (read_all 0) (to_list-of_list (put_all (mark 1)))

unused : lookup (encrypted 1) one.by_unique ≡ none
unfolding write create store_row new_repository insert lookup
unused = ground (arith, same?_ne (encrypted 0) (encrypted 1) encrypted-differs)

pub ids_left : one.seq + 1 < 2 ^ 64
unfolding write create store_row new_repository lookup
ids_left = omega arith

-- The bot that this adds.
pub again :
    (b : Bot) × (s : Repository Profile) × (add plain cipher (random 1) "v" "bot" one ≡ ok (b, s))
    × (b.unique ≡ "bot")
again =
    encrypted_duplicate plain cipher (random 1) "v" "bot" (encrypted 1) one one-IsValid ids_left
      (encrypts 1) unused
