-- ===== src/Router/Method.antt =====
-- The buckets by method of router.rs.
use Prim.Native.String.{String}
use text.Mathlib.Text.{◌==◌ as ◌=ₛ◌}
use typeway.Base.{ℕ, Bool, ◌^◌, ◌≡◌, List, [], ◌∷◌, ◌==◌, if◌then◌else◌, arith}

pub data Method : Type 0 where
  get post put delete patch head options : Method
  extension : String → Method

-- A record of one bucket for each method, and one for all others.
pub record MethodIndex (B : Type 0) : Type 0 where
  pub get : B
  pub post : B
  pub put : B
  pub delete : B
  pub patch : B
  pub head : B
  pub options : B
  pub other : B

module _ {B : Type 0} where
  unfoldable pub bucket : MethodIndex B → Method → B
  bucket ix Method.get = ix.get
  bucket ix Method.post = ix.post
  bucket ix Method.put = ix.put
  bucket ix Method.delete = ix.delete
  bucket ix Method.patch = ix.patch
  bucket ix Method.head = ix.head
  bucket ix Method.options = ix.options
  bucket ix (extension name) = ix.other

  -- What is written through `bucket_mut`.
  unfoldable pub set_bucket : MethodIndex B → Method → B → MethodIndex B
  set_bucket ix Method.get b = record ix { get = b }
  set_bucket ix Method.post b = record ix { post = b }
  set_bucket ix Method.put b = record ix { put = b }
  set_bucket ix Method.delete b = record ix { delete = b }
  set_bucket ix Method.patch b = record ix { patch = b }
  set_bucket ix Method.head b = record ix { head = b }
  set_bucket ix Method.options b = record ix { options = b }
  set_bucket ix (extension name) b = record ix { other = b }

  abbrev pub all_buckets : MethodIndex B → List B
  all_buckets ix =
      ix.get ∷ ix.post ∷ ix.put ∷ ix.delete ∷ ix.patch ∷ ix.head ∷ ix.options ∷ ix.other ∷ []

unfoldable pub method_bit : Method → ℕ
method_bit Method.get = 2 ^ 0
method_bit Method.post = 2 ^ 1
method_bit Method.put = 2 ^ 2
method_bit Method.delete = 2 ^ 3
method_bit Method.patch = 2 ^ 4
method_bit Method.head = 2 ^ 5
method_bit Method.options = 2 ^ 6
method_bit (extension name) = 2 ^ 7

-- `==` of methods
unfoldable pub method_eq : Method → Method → Bool
unfolding method_bit
method_eq (extension a) (extension b) = a =ₛ b
method_eq m n = method_bit m == method_bit n

-- A bucket is what was last written to it.
pub bucket-set_bucket :
    {B : Type 0} (ix : MethodIndex B) (m n : Method) (b : B)
    → bucket (set_bucket ix m b) n ≡ (if method_bit m == method_bit n then b else bucket ix n)
unfolding bucket set_bucket method_bit
bucket-set_bucket ix m n b = ground arith

-- Methods with one bit share a bucket.
pub bucket_of_bit :
    {B : Type 0} (ix : MethodIndex B) (m n : Method)
    → method_bit m ≡ method_bit n
    → bucket ix m ≡ bucket ix n
unfolding bucket method_bit
bucket_of_bit ix m n e = ground arith
