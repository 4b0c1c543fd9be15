-- ===== src/Text/Matching.antt =====
-- What a pattern matches, said without the search, and that the search of Text.antt finds it.
use cartesi_release_validati.Prelude.{
  none≢some, ◌≡◌, refl, sym, ap, ◌≢◌, ◌⊎◌, inl, inr, Bool, true, Option, none, some, List, [], ◌∷◌,
  ◌++◌, append_assoc, arith, if◌then◌else◌, Bool-cases, All,
}
use Prim.Native.Char.{Char}
use cartesi_release_validati.Text.{
  or_else, Pattern, one, many, seq, either, nothing, run_of, match_at, group_at, search,
}

-- The texts that a pattern matches as a whole.
unfoldable pub Matches : Pattern → List Char → Type 0
Matches (one p) u = (c : Char) × ((u ≡ c ∷ []) × (p c ≡ true))
Matches (many p) u = All (λ c. p c ≡ true) u
Matches (seq a b) u =
    (x : List Char) × ((y : List Char) × ((u ≡ x ++ y) × (Matches a x × Matches b y)))
Matches (either a b) u = Matches a u ⊎ Matches b u
Matches nothing u = u ≡ []

-- The text has the prefix and then the group somewhere, the group being v.
pub record Occurs (prefix group : Pattern) (s v : List Char) : Type 0 where
  pub front : List Char
  pub lead : List Char
  pub back : List Char
  pub splits : s ≡ front ++ (lead ++ (v ++ back))
  pub lead_matches : Matches prefix lead
  pub group_matches : Matches group v

or_else-none {ℓ} : {A : Type ℓ} (a b : Option A) → or_else a b ≡ none → (a ≡ none) × (b ≡ none)
or_else-none none b h = (refl, h)
or_else-none (some x) b h = ground arith

or_else-some {ℓ} :
    {A : Type ℓ} (a b : Option A) (x : A) → or_else a b ≡ some x → (a ≡ some x) ⊎ (b ≡ some x)
or_else-some none b x h = inr h
or_else-some (some y) b x h = inl h

-- A match that the rest of the search accepts.
record Accepted {R : Type 0} (M : List Char → Type 0) (s : List Char)
    (k : List Char → List Char → Option R) (x : R) : Type 0 where
  taken : List Char
  left : List Char
  splits : s ≡ taken ++ left
  matches : M taken
  accepts : k taken left ≡ some x

module _ {R : Type 0} where
  run_of-refuses :
      (p : Char → Bool) (u v : List Char) (k : List Char → List Char → Option R)
      → All (λ c. p c ≡ true) u
      → run_of p (u ++ v) k ≡ none
      → k u v ≡ none
  run_of-refuses p [] [] k h e = e
  run_of-refuses p [] (c ∷ v) k h e = elim (Bool-cases (p c)) [
    | inl y ↦ (or_else-none _ _ (rw y at e)).1
    | inr n ↦ rw n at e
  ]
  run_of-refuses p (c ∷ u) v k h e =
      run_of-refuses p u v (λ a b. k (c ∷ a) b) h.1 (or_else-none _ _ (rw h.0 at e)).0

  match_at-refuses :
      (r : Pattern) (u v : List Char) (k : List Char → List Char → Option R)
      → Matches r u
      → match_at r (u ++ v) k ≡ none
      → k u v ≡ none
  unfolding Matches
  match_at-refuses (one p) u v k (c, (e, y)) h =
      rw e (let g : (if p c then k (c ∷ []) v else none) ≡ none = rw e at h in rw y at g)
  match_at-refuses (many p) u v k m h = run_of-refuses p u v k m h
  match_at-refuses (seq a b) u v k (x, (y, (e, (m, n)))) h = rw e (
      match_at-refuses b y v (λ p w. k (x ++ p) w) n
        (match_at-refuses a x (y ++ v) (λ p r. match_at b r (λ q w. k (p ++ q) w)) m
          (rw (e, append_assoc) at h)))
  match_at-refuses (either a b) u v k (inl m) h = match_at-refuses a u v k m (or_else-none _ _ h).0
  match_at-refuses (either a b) u v k (inr m) h = match_at-refuses b u v k m (or_else-none _ _ h).1
  match_at-refuses nothing u v k m h = rw m (rw m at h)

  run_of-Accepted :
      (p : Char → Bool) (s : List Char) (k : List Char → List Char → Option R) (x : R)
      → run_of p s k ≡ some x
      → Accepted (Matches (many p)) s k x
  unfolding Matches
  run_of-Accepted p [] k x h = record {
    taken = [];
    left = [];
    splits = refl;
    matches = tt;
    accepts = h;
  }
  run_of-Accepted p (c ∷ s) k x h = elim (Bool-cases (p c)) [
    | inl y ↦ elim (or_else-some _ _ x (rw y at h)) [
      | inl g ↦ longer y (run_of-Accepted p s (λ u v. k (c ∷ u) v) x g)
      | inr g ↦ record { taken = []; left = c ∷ s; splits = refl; matches = tt; accepts = g }
    ]
    | inr n ↦ record { taken = []; left = c ∷ s; splits = refl; matches = tt; accepts = rw n at h }
  ]
    where
      longer :
          p c ≡ true
          → Accepted (Matches (many p)) s (λ u v. k (c ∷ u) v) x
          → Accepted (Matches (many p)) (c ∷ s) k x
      longer y a = record {
        taken = c ∷ a.taken;
        left = a.left;
        splits = ap (λ t. c ∷ t) a.splits;
        matches = (y, a.matches);
        accepts = a.accepts;
      }

  match_at-Accepted :
      (r : Pattern) (s : List Char) (k : List Char → List Char → Option R) (x : R)
      → match_at r s k ≡ some x
      → Accepted (Matches r) s k x
  unfolding Matches
  match_at-Accepted (one p) [] k x h = elim (none≢some h) [ ]
  match_at-Accepted (one p) (c ∷ s) k x h = elim (Bool-cases (p c)) [
    | inl y ↦ record {
      taken = c ∷ [];
      left = s;
      splits = refl;
      matches = (c, (refl, y));
      accepts = rw y at h;
    }
    | inr n ↦ elim (none≢some (rw n at h)) [ ]
  ]
  match_at-Accepted (many p) s k x h = run_of-Accepted p s k x h
  match_at-Accepted (seq a b) s k x h =
      let f = match_at-Accepted a s (λ u r. match_at b r (λ v w. k (u ++ v) w)) x h in
      let g = match_at-Accepted b f.left (λ v w. k (f.taken ++ v) w) x f.accepts in
      record {
        taken = f.taken ++ g.taken;
        left = g.left;
        splits = rw (append_assoc, ← g.splits) f.splits;
        matches = (f.taken, (g.taken, (refl, (f.matches, g.matches))));
        accepts = g.accepts;
      }
  match_at-Accepted (either a b) s k x h = elim (or_else-some _ _ x h) [
    | inl g ↦ left_one (match_at-Accepted a s k x g)
    | inr g ↦ right_one (match_at-Accepted b s k x g)
  ]
    where
      left_one : Accepted (Matches a) s k x → Accepted (Matches (either a b)) s k x
      left_one f = record {
        taken = f.taken;
        left = f.left;
        splits = f.splits;
        matches = inl f.matches;
        accepts = f.accepts;
      }

      right_one : Accepted (Matches b) s k x → Accepted (Matches (either a b)) s k x
      right_one f = record {
        taken = f.taken;
        left = f.left;
        splits = f.splits;
        matches = inr f.matches;
        accepts = f.accepts;
      }
  match_at-Accepted nothing s k x h = record {
    taken = [];
    left = s;
    splits = refl;
    matches = refl;
    accepts = h;
  }

group_at-Occurs :
    (prefix group : Pattern) (s v : List Char)
    → group_at prefix group s ≡ some v
    → Occurs prefix group s v
unfolding group_at
group_at-Occurs prefix group s v h =
    let f = match_at-Accepted prefix s (λ u r. match_at group r (λ w z. some w)) v h in
    let g = match_at-Accepted group f.left (λ w z. some w) v f.accepts in
    let same : g.taken ≡ v = ground arith in
    record {
      front = [];
      lead = f.taken;
      back = g.left;
      splits = rw (← same, ← g.splits) f.splits;
      lead_matches = f.matches;
      group_matches = rw same at g.matches;
    }

group_at-refuses :
    (prefix group : Pattern) (u v w : List Char)
    → Matches prefix u
    → Matches group v
    → group_at prefix group (u ++ (v ++ w)) ≢ none
unfolding group_at
group_at-refuses prefix group u v w m n h = none≢some (
    sym (
      match_at-refuses group v w (λ x y. some x) n
        (match_at-refuses prefix u (v ++ w) (λ x r. match_at group r (λ y z. some y)) m h)))

-- The group that `search` finds stands in the text behind a match of the prefix.
pub search-Occurs :
    (prefix group : Pattern) (s v : List Char)
    → search prefix group s ≡ some v
    → Occurs prefix group s v
unfolding search
search-Occurs prefix group [] v h = group_at-Occurs prefix group [] v h
search-Occurs prefix group (c ∷ s) v h = elim (or_else-some _ _ v h) [
  | inl g ↦ group_at-Occurs prefix group (c ∷ s) v g
  | inr g ↦
      let o = search-Occurs prefix group s v g in
      record {
        front = c ∷ o.front;
        lead = o.lead;
        back = o.back;
        splits = ap (λ t. c ∷ t) o.splits;
        lead_matches = o.lead_matches;
        group_matches = o.group_matches;
      }
]

search-group_at :
    (prefix group : Pattern) (s : List Char)
    → search prefix group s ≡ none
    → group_at prefix group s ≡ none
unfolding search
search-group_at prefix group [] h = h
search-group_at prefix group (c ∷ s) h = (or_else-none _ _ h).0

-- If `search` finds nothing, there is nothing to find.
pub search-misses :
    (prefix group : Pattern) (s v : List Char)
    → search prefix group s ≡ none
    → ¬ Occurs prefix group s v
unfolding search
search-misses prefix group s v h o = misses o.front s o.splits h
  where
    misses :
        (front t : List Char)
        → t ≡ front ++ (o.lead ++ (v ++ o.back))
        → search prefix group t ≢ none
    misses [] t e h =
        group_at-refuses prefix group o.lead v o.back o.lead_matches o.group_matches
          (search-group_at prefix group _ (rw e at h))
    misses (c ∷ f) t e h =
        misses f (f ++ (o.lead ++ (v ++ o.back))) refl (or_else-none _ _ (rw e at h)).1
