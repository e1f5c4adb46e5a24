-- ===== src/Store/Sweep/Laws.antt =====
-- gc_incoming_before of src/store/blobs.rs: which uploads it reclaims, and which it never does.
use saros.Base.{
  ℕ, ◌+◌, ◌≤◌, ◌≡◌, refl, sym, ap, ◌∙◌, inl, inr, ◌⊎◌, Bool, true, false, not, ◌&&◌, leb, Option,
  none, some, List, [], ◌∷◌, Text, text, text_eq, contains, any, length, dec_text, ok, arith,
  Bool-cases,
}
use saros.Base.Map
use saros.Base.Map.{Map}
use saros.Store.State.{
  Env, PoolFile, Store, Faults, no_faults, read_incoming, pool_metadata, remove_pool,
}
use saros.Store.Sweep.{referenced, is_reclaimed, gc_pool, gc_incoming_before}

module _ (fails : Faults) (refs : List Text) (cutoff : ℕ) where
  get-gc_pool :
      (pool : Map Text PoolFile) (name : Text) (f : PoolFile)
      → is_reclaimed fails refs cutoff name f ≡ false
      → Map.get dec_text name pool ≡ some f
      → Map.get dec_text name ((gc_pool fails refs cutoff pool).0) ≡ some f
  unfolding gc_pool Map.get
  get-gc_pool [] name f keeps h = cc
  get-gc_pool ((n, g) ∷ rest) name f keeps h =
      elim (Bool-cases (is_reclaimed fails refs cutoff n g)) [
        | inl e ↦ rw e (ground (arith, get-gc_pool rest name f keeps, h, keeps, e))
        | inr e ↦ rw e (ground (arith, get-gc_pool rest name f keeps, h))
      ]

  kept-gc_pool :
      (pool : Map Text PoolFile) (name : Text) (f : PoolFile)
      → Map.get dec_text name ((gc_pool fails refs cutoff pool).0) ≡ some f
      → is_reclaimed fails refs cutoff name f ≡ false
  unfolding gc_pool Map.get
  kept-gc_pool [] name f h = cc
  kept-gc_pool ((n, g) ∷ rest) name f h = elim (Bool-cases (is_reclaimed fails refs cutoff n g)) [
    | inl e ↦ kept-gc_pool rest name f (rw (gc_pool, e) at h)
    | inr e ↦
        (let h' : Map.get dec_text name ((n, g) ∷ (gc_pool fails refs cutoff rest).0) ≡ some f =
            rw (gc_pool, e) at h in
          ground (arith, kept-gc_pool rest name f, h', e))
  ]

  length-gc_pool :
      (pool : Map Text PoolFile)
      → length ((gc_pool fails refs cutoff pool).0) + (gc_pool fails refs cutoff pool).1
        ≡ length pool
  unfolding gc_pool
  length-gc_pool [] = refl
  length-gc_pool ((n, g) ∷ rest) = elim (Bool-cases (is_reclaimed fails refs cutoff n g)) [
    | inl e ↦ rw e (ground (arith, length-gc_pool rest))
    | inr e ↦ rw e (ground (arith, length-gc_pool rest))
  ]

-- What protects a file: a manifest that names it, or an age short of the cutoff.
abbrev pub IsProtected : List Text → ℕ → Text → PoolFile → Type 0
IsProtected refs cutoff name f =
    (any (text_eq name) refs ≡ true)
    ⊎ (f.modified ≡ none)
    ⊎ ((t : ℕ) × (f.modified ≡ some t) × (cutoff ≤ t))

abbrev is_old : ℕ → Option ℕ → Bool
is_old cutoff modified = elim modified [ none ↦ false | some mtime ↦ not (leb cutoff mtime) ]

spared_by :
    (temporary named unread stays : Bool) (cutoff : ℕ) (modified : Option ℕ)
    → ((named ≡ true) ⊎ (modified ≡ none) ⊎ ((t : ℕ) × (modified ≡ some t) × (cutoff ≤ t)))
    → (not temporary && not named && not unread && is_old cutoff modified && not stays) ≡ false
spared_by temporary named unread stays cutoff none p = ground arith
spared_by temporary named unread stays cutoff (some t) (inl h) = ground (arith, h)
spared_by temporary named unread stays cutoff (some t) (inr (inl h)) = cc
spared_by temporary named unread stays cutoff (some t) (inr (inr (u, e, le))) =
    ground (arith, e, le)

spared :
    (fails : Faults) (refs : List Text) (cutoff : ℕ) (name : Text) (f : PoolFile)
    → IsProtected refs cutoff name f
    → is_reclaimed fails refs cutoff name f ≡ false
unfolding is_reclaimed
spared fails refs cutoff name f p =
    spared_by (contains (text ".tmp-") name) (any (text_eq name) refs) (fails (pool_metadata name))
      (fails (remove_pool name)) cutoff f.modified p

left_by :
    (temporary named : Bool) (cutoff : ℕ) (modified : Option ℕ)
    → (not temporary && not named && not false && is_old cutoff modified && not false) ≡ false
    → (temporary ≡ true)
      ⊎ (named ≡ true)
      ⊎ (modified ≡ none)
      ⊎ ((t : ℕ) × (modified ≡ some t) × (cutoff ≤ t))
left_by true named cutoff modified h = inl refl
left_by false true cutoff modified h = inr (inl refl)
left_by false false cutoff none h = inr (inr (inl refl))
left_by false false cutoff (some t) h = inr (inr (inr (t, refl, ground (arith, h))))

-- Without a fault, what is left is temporary or protected.
left_over :
    (refs : List Text) (cutoff : ℕ) (name : Text) (f : PoolFile)
    → is_reclaimed no_faults refs cutoff name f ≡ false
    → (contains (text ".tmp-") name ≡ true) ⊎ IsProtected refs cutoff name f
unfolding is_reclaimed
left_over refs cutoff name f h =
    left_by (contains (text ".tmp-") name) (any (text_eq name) refs) cutoff f.modified h

module _ (env : Env) where
  open env use {Manifest}

  -- A sweep of the uploads that succeeds spares every file that a live or staged manifest names,
  -- that is not older than the cutoff, whichever other calls fail.
  pub gc_incoming_before_spares :
      (fails : Faults) (cutoff deleted : ℕ) (s s' : Store Manifest)
      → gc_incoming_before env fails cutoff s ≡ (ok deleted, s')
      → (name : Text) (f : PoolFile) → Map.get dec_text name s.disk.incoming ≡ some f
      → IsProtected (referenced s.index) cutoff name f
      → Map.get dec_text name s'.disk.incoming ≡ some f
  unfolding gc_incoming_before
  gc_incoming_before_spares fails cutoff deleted s s' d name f h p =
      elim (Bool-cases (fails read_incoming)) [
        | inl e ↦ cc (rw (e, gc_incoming_before) at d)
        | inr e ↦
            ap (λ a. Map.get dec_text name (a.1).disk.incoming)
              (sym (rw (e, gc_incoming_before) at d))
            ∙ get-gc_pool fails (referenced s.index) cutoff s.disk.incoming name f
                (spared fails (referenced s.index) cutoff name f p) h
      ]

  -- Where no call fails, a sweep of the uploads succeeds, and answers how many files it removed.
  pub gc_incoming_before_counts :
      (cutoff : ℕ) (s : Store Manifest)
      → (deleted : ℕ) × (s' : Store Manifest) × (gc_incoming_before env no_faults cutoff s
          ≡ (ok deleted, s'))
        × (length s'.disk.incoming + deleted ≡ length s.disk.incoming)
  unfolding gc_incoming_before
  gc_incoming_before_counts cutoff s = (
    (gc_pool no_faults (referenced s.index) cutoff s.disk.incoming).1,
    (gc_incoming_before env no_faults cutoff s).1,
    refl,
    length-gc_pool no_faults (referenced s.index) cutoff s.disk.incoming,
  )

  -- Where no call fails, a file that a sweep of the uploads leaves is a temporary one, or one that
  -- a manifest names, or has no modification time, or is not older than the cutoff.
  pub gc_incoming_before_complete :
      (cutoff : ℕ) (s : Store Manifest) (name : Text) (f : PoolFile)
      → Map.get dec_text name (gc_incoming_before env no_faults cutoff s).1.disk.incoming ≡ some f
      → (contains (text ".tmp-") name ≡ true) ⊎ IsProtected (referenced s.index) cutoff name f
  unfolding gc_incoming_before
  gc_incoming_before_complete cutoff s name f h =
      left_over (referenced s.index) cutoff name f
        (kept-gc_pool no_faults (referenced s.index) cutoff s.disk.incoming name f h)
