-- ===== src/RateLimit/Store.antt =====
-- A cache in memory, as a function from clients to a count and the seconds that are left of it. It
-- does what RateLimit asks of a cache.
use chargev.Prelude.{
  ℕ, suc, ◌-◌, ◌≤◌, ◌<◌, ◌≡◌, refl, ap, ◌∙◌, String, same_text, Bool, true, false, Option, none,
  some, leb, get_or, arith, if◌then◌else◌,
}
use text.Mathlib.TextPositions.{eq_refl}
use chargev.RateLimit.{Client, api, ip, Cache}

abbrev pub same_address : Option String → Option String → Bool
same_address none none = true
same_address (some a) (some b) = same_text a b
same_address a b = false

abbrev pub same_client : Client → Client → Bool
same_client (api a) (api b) = same_text a b
same_client (ip a) (ip b) = same_address a b
same_client a b = false

same_address_refl : (a : Option String) → same_address a a ≡ true
same_address_refl none = refl
same_address_refl (some a) = eq_refl a

same_client_refl : (a : Client) → same_client a a ≡ true
same_client_refl (api a) = eq_refl a
same_client_refl (ip a) = same_address_refl a

pub record Cell : Type 0 where
  pub count : ℕ
  pub left : Option ℕ

abbrev pub Store : Type 0
Store = Client → Option Cell

abbrev pub count_of : Option Cell → Option ℕ
count_of none = none
count_of (some c) = some c.count

abbrev pub left_of : Option Cell → Option ℕ
left_of none = none
left_of (some c) = c.left

abbrev pub put : Client → Option Cell → Store → Store
put k c s j = if same_client j k then c else s j

abbrev pub counted_up : Option Cell → Option Cell
counted_up none = some (record { count = 1; left = none })
counted_up (some c) = some (record c { count = suc c.count })

abbrev pub set_left : ℕ → Option Cell → Option Cell
set_left n none = none
set_left n (some c) = some (record c { left = some n })

abbrev pub aged : ℕ → Option Cell → Option Cell
aged n none = none
aged n (some c) = elim c.left [
  | none ↦ some c
  | some t ↦ if leb t n then none else some (record c { left = some (t - n) })
]

put_lem : (k : Client) (c : Option Cell) (s : Store) → put k c s k ≡ c
put_lem k c s = rw (same_client_refl k) refl

-- The laws, of the cell alone.
pub count-up : (c : Option Cell) → count_of (counted_up c) ≡ some (suc (get_or (count_of c) 0))
count-up none = refl
count-up (some c) = refl

pub left-up : (c : Option Cell) → left_of (counted_up c) ≡ left_of c
left-up none = refl
left-up (some c) = refl

pub count-set : (n : ℕ) (c : Option Cell) → count_of (set_left n c) ≡ count_of c
count-set n none = refl
count-set n (some c) = refl

pub left-set :
    (n : ℕ) (c : Option Cell) {m : ℕ} → count_of c ≡ some m → left_of (set_left n c) ≡ some n
left-set n none h = cc
left-set n (some c) h = refl

pub aged-none : (n : ℕ) (c : Option Cell) → left_of c ≡ none → aged n c ≡ c
aged-none n none h = refl
aged-none n (some c) h = ground arith

pub aged_before :
    (n : ℕ) (c : Option Cell) {t : ℕ}
    → left_of c ≡ some t
    → n < t
    → (count_of (aged n c) ≡ count_of c) × (left_of (aged n c) ≡ some (t - n))
aged_before n none h h' = cc
aged_before n (some c) h h' = (ground arith, ground arith)

pub aged_after : (n : ℕ) (c : Option Cell) {t : ℕ} → left_of c ≡ some t → t ≤ n → aged n c ≡ none
aged_after n none h h' = refl
aged_after n (some c) h h' = ground arith

module _ (k : Client) (s : Store) where
  pub here_count : (c : Option Cell) → count_of (put k c s k) ≡ count_of c
  here_count c = ap count_of (put_lem k c s)

  pub here_left : (c : Option Cell) → left_of (put k c s k) ≡ left_of c
  here_left c = ap left_of (put_lem k c s)

unfoldable pub in_memory : Cache Store
in_memory = record {
  get = λ k s. count_of (s k);
  ttl = λ k s. left_of (s k);
  increment = λ k s. put k (counted_up (s k)) s;
  expire = λ k n s. put k (set_left n (s k)) s;
  pass = λ n s j. aged n (s j);
  get-increment = λ k s. here_count k s (counted_up (s k)) ∙ count-up (s k);
  ttl-increment = λ k s. here_left k s (counted_up (s k)) ∙ left-up (s k);
  get-expire = λ k n s. here_count k s (set_left n (s k)) ∙ count-set n (s k);
  ttl-expire = λ k n s {c} h. here_left k s (set_left n (s k)) ∙ left-set n (s k) {m = c} h;
  get-pass-none = λ k n s h. ap count_of (aged-none n (s k) h);
  ttl-pass-none = λ k n s h. ap left_of (aged-none n (s k) h) ∙ h;
  get-pass-before = λ k n s {t} h h'. (aged_before n (s k) {t = t} h h').0;
  ttl-pass-before = λ k n s {t} h h'. (aged_before n (s k) {t = t} h h').1;
  get-pass-after = λ k n s {t} h h'. ap count_of (aged_after n (s k) {t = t} h h');
  ttl-pass-after = λ k n s {t} h h'. ap left_of (aged_after n (s k) {t = t} h h');
}
