-- ===== src/Mirror.antt =====
-- src/mirror.rs: the egress mirror, over the object store that it calls. Each call answers with
-- the state that it leaves, so an answer may differ from one call to the next.
use saros.Base.{
  Bool, true, false, if◌then◌else◌, Option, none, some, [], ◌∷◌, ◌++◌, ◌==◌, Text, text,
}
use mathlib.Core.List.{reverse}
use saros.Store.State.{Bytes}

-- The calls of `object_store`: `head` answers none on an error other than `NotFound`.
pub record ObjectStore : Type 1 where
  pub Bucket : Type 0
  pub head : Bucket → Text → Option Bool × Bucket
  pub put : Bucket → Text → Bytes → Bool × Bucket
  pub signed_url : Bucket → Text → Option Text × Bucket

-- Mirror::key
abbrev pub object_key : Text → Text
object_key sha = text "blobs/" ++ sha

drop_slashes : Text → Text
drop_slashes [] = []
drop_slashes (c ∷ s) = let rest = drop_slashes s in if c == b'/' then rest else c ∷ s

-- `trim_end_matches('/')`
unfoldable pub trim_end_slashes : Text → Text
unfolding drop_slashes
trim_end_slashes s = reverse (drop_slashes (reverse s))

module _ (os : ObjectStore) where
  open os use {Bucket}

  pub record Mirror : Type 0 where
    pub bucket : Bucket
    pub public_base : Option Text

  -- Mirror::has
  unfoldable pub has : Mirror → Text → Option Bool × Mirror
  has m sha =
      let (answer, bucket) = os.head m.bucket (object_key sha) in
      (answer, record m { bucket = bucket })

  -- Mirror::put_if_absent: true where it succeeds
  unfoldable pub put_if_absent : Mirror → Text → Bytes → Bool × Mirror
  unfolding has
  put_if_absent m sha content =
      let (present, m') = has m sha in
      elim present [
        | none ↦ (false, m')
        | some b ↦
            if b
            then (true, m')
            else (let (done, bucket) = os.put m'.bucket (object_key sha) content in
                (done, record m' { bucket = bucket }))
      ]

  -- Mirror::url
  unfoldable pub url : Mirror → Text → Option Text × Mirror
  unfolding trim_end_slashes
  url m sha = elim m.public_base [
    | none ↦
        (let (signed, bucket) = os.signed_url m.bucket (object_key sha) in
          (signed, record m { bucket = bucket }))
    | some base ↦ (some (trim_end_slashes base ++ text "/blobs/" ++ sha), m)
  ]
