-- ===== src/Sites/ByHost.antt =====
-- The site that answers for a host and a path.
use text.Mathlib.TextEquality.{eq_iff}
use mathlib.Core.Path.{subst}
use simple_directory.Common.{
  All, Bool, Bool-cases, List, Option, String, [], and_split, arith, filter, inl, inr, leb, none,
  refl, some, true, ℕ, ◌==◌, ◌∷◌, ◌≡◌, ◌≤◌, nat_eq, option_eq, string_eq,
}
use simple_directory.Sites.{
  Site, get_site_by_host, is_candidate, longer, longest, site_path_matches, site_path_prefix,
  text_length,
}
use simple_directory.Collection.{Collection}

abbrev size : Site → ℕ
size s = text_length (site_path_prefix s)

-- the site that was found passes what all the sites of the list pass, and none is longer
abbrev Passes : (Site → Bool) → List Site → Type 0
Passes p l = All (λ s. p s ≡ true) l

abbrev IsBest : (Site → Bool) → List Site → Option Site → Type 0
IsBest p l none = l ≡ []
IsBest p l (some b) = (Passes p l → p b ≡ true) × All (λ s. size s ≤ size b) l

All-longer :
    (l : List Site) (a b : Site)
    → size b ≤ size a
    → All (λ s. size s ≤ size b) l
    → All (λ s. size s ≤ size a) l
All-longer [] a b h k = tt
All-longer (x ∷ l) a b h (k, ks) = (omega arith, All-longer l a b h ks)

IsBest-longer :
    (p : Site → Bool) (a : Site) (l : List Site) (o : Option Site)
    → IsBest p l o
    → IsBest p (a ∷ l) (longer a o)
IsBest-longer p a l none h = ((λ k. k.0), (omega arith, rw h tt))
IsBest-longer p a l (some b) (member, most) = elim (Bool-cases (leb (size b) (size a))) [
  | inl le ↦ rw le ((λ k. k.0), (omega arith, All-longer l a b (ground arith) most))
  | inr gt ↦ rw gt ((λ k. member (k.1)), (ground arith, most))
]

longest-IsBest : (p : Site → Bool) (l : List Site) → IsBest p l (longest l)
longest-IsBest p [] = refl
longest-IsBest p (s ∷ l) = IsBest-longer p s l (longest l) (longest-IsBest p l)

All-filter_self : (p : Site → Bool) (l : List Site) → All (λ s. p s ≡ true) (filter p l)
All-filter_self p [] = tt
All-filter_self p (x ∷ l) = elim (Bool-cases (p x)) [
  | inl b ↦ rw b (b, All-filter_self p l)
  | inr b ↦ rw b (All-filter_self p l)
]

All-unfilter :
    (P : Site → Type 0) (p : Site → Bool) (l : List Site)
    → All P (filter p l)
    → All (λ s. p s ≡ true → P s) l
All-unfilter P p [] h = tt
All-unfilter P p (x ∷ l) h = elim (Bool-cases (p x)) [
  | inl b ↦
      let h' : P x × All P (filter p l) = rw b at h in ((λ _. h'.0), All-unfilter P p l (h'.1))
  | inr b ↦ ((λ e. cc), All-unfilter P p l (rw b at h))
]

module _ (sites : Collection Site) where
  -- A site that is found for a host and a path matches them, and no other site that does has a
  -- longer prefix.
  pub get_site_by_host-longest :
      (host path : String) (s : sites.Store) (b : Site)
      → get_site_by_host sites host path s ≡ some b
      → (b.host ≡ host)
        × (site_path_matches b path ≡ true)
        × All
            (λ x.
              is_candidate host path x ≡ true
              → text_length (site_path_prefix x) ≤ text_length (site_path_prefix b))
            (sites.docs s)
  unfolding get_site_by_host
  get_site_by_host-longest host path s b e =
      let l = filter (is_candidate host path) (sites.docs s) in
      let (member, most) =
        subst (IsBest (is_candidate host path) l) e (longest-IsBest (is_candidate host path) l) in
      let hit = member (All-filter_self (is_candidate host path) (sites.docs s)) in
      let (at_host, at_path) = and_split (b.host == host) (site_path_matches b path) hit in
      (
        (eq_iff b.host host).0 at_host,
        at_path,
        All-unfilter _ (is_candidate host path) (sites.docs s) most,
      )
