-- ===== src/ServiceDiscovery/Keys.antt =====
-- The keys `key-dc` of frontik/service_discovery.py.
use Prim.Native.Char.{Char}
use text.Mathlib.TextLemmas.{cons-append, nil-append}
use frontik.Prelude.{
  ℕ, String, true, false, ◌||◌, ◌+++◌, ◌≡◌, ◌≢◌, refl, sym, ap, ◌∙◌, ◌==◌, Bool-cases, inl, inr,
  eq_iff, arith, has_char,
}
use frontik.ServiceDiscovery.{service_key}

has_char-append : (k : ℕ) (a b : String) → has_char k (a +++ b) ≡ (has_char k a || has_char k b)
has_char-append k String.[] b = ap (has_char k) (nil-append b)
has_char-append k (String.◌∷◌ c a) b =
    rw (cons-append c a b) (ground (arith, has_char-append k a b))

tail_of : String → String
tail_of String.[] = ""
tail_of (String.◌∷◌ c s) = s

head_of : Char → String → Char
head_of d String.[] = d
head_of d (String.◌∷◌ c s) = c

tail-nil : (dc : String) → tail_of (service_key "" dc) ≡ dc
unfolding service_key tail_of
tail-nil dc = rw (nil-append ("-" +++ dc), cons-append _ "" dc) (nil-append dc)

tail-cons :
    (c : Char) (key dc : String) → tail_of (service_key (String.◌∷◌ c key) dc) ≡ service_key key dc
unfolding service_key tail_of
tail-cons c key dc = rw (cons-append c key ("-" +++ dc)) refl

head-cons : (d c : Char) (key dc : String) → head_of d (service_key (String.◌∷◌ c key) dc) ≡ c
unfolding service_key head_of
head-cons d c key dc = rw (cons-append c key ("-" +++ dc)) refl

has_dash : (key dc : String) → has_char b'-' (service_key key dc) ≡ true
unfolding service_key
has_dash key dc =
    rw (has_char-append b'-' key ("-" +++ dc), has_char-append b'-' "-" dc) (ground arith)

no_dash :
    (c : Char) (key dc dc' : String)
    → has_char b'-' dc ≡ false
    → service_key "" dc ≢ service_key (String.◌∷◌ c key) dc'
no_dash c key dc dc' h e =
    let same : dc ≡ service_key key dc' =
      sym (tail-nil dc) ∙ (ap tail_of e ∙ tail-cons c key dc') in
    cc (h, ap (has_char b'-') same, has_dash key dc')

-- With datacenters that have no dash, two services never share a key.
pub service_key_inj :
    (key key' dc dc' : String)
    → has_char b'-' dc ≡ false
    → has_char b'-' dc' ≡ false
    → service_key key dc ≡ service_key key' dc'
    → key ≡ key'
service_key_inj String.[] String.[] dc dc' h h' e = refl
service_key_inj String.[] (String.◌∷◌ c key') dc dc' h h' e = elim (no_dash c key' dc dc' h e) [ ]
service_key_inj (String.◌∷◌ c key) String.[] dc dc' h h' e =
    elim (no_dash c key dc' dc h' (sym e)) [ ]
service_key_inj (String.◌∷◌ c key) (String.◌∷◌ c' key') dc dc' h h' e =
    let tails =
      service_key_inj key key' dc dc' h h'
        (sym (tail-cons c key dc) ∙ (ap tail_of e ∙ tail-cons c' key' dc')) in
    let heads : c ≡ c' =
      sym (head-cons c c key dc) ∙ (ap (head_of c) e ∙ head-cons c c' key' dc') in
    cc (heads, tails)

pub keys_differ :
    (key key' dc dc' : String)
    → (key == key') ≡ false
    → has_char b'-' dc ≡ false
    → has_char b'-' dc' ≡ false
    → (service_key key dc == service_key key' dc') ≡ false
keys_differ key key' dc dc' other h h' =
    elim (Bool-cases (service_key key dc == service_key key' dc')) [
      | inr e ↦ e
      | inl e ↦
          let same = service_key_inj key key' dc dc' h h' ((eq_iff _ _).0 e) in
          cc (other, (eq_iff key key').1 same)
    ]

datacenter_inj : (key dc dc' : String) → service_key key dc ≡ service_key key dc' → dc ≡ dc'
datacenter_inj String.[] dc dc' e = sym (tail-nil dc) ∙ (ap tail_of e ∙ tail-nil dc')
datacenter_inj (String.◌∷◌ c key) dc dc' e =
    datacenter_inj key dc dc' (sym (tail-cons c key dc) ∙ (ap tail_of e ∙ tail-cons c key dc'))

pub datacenters_differ :
    (key dc dc' : String)
    → (dc == dc') ≡ false
    → (service_key key dc == service_key key dc') ≡ false
datacenters_differ key dc dc' other =
    elim (Bool-cases (service_key key dc == service_key key dc')) [
      | inr e ↦ e
      | inl e ↦ cc (other, (eq_iff dc dc').1 (datacenter_inj key dc dc' ((eq_iff _ _).0 e)))
    ]
