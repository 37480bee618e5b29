-- ===== src/Descriptor.antt =====
-- descriptor/descriptor.go: methods and services.
pub mod Names
use argos.Base.{
  ℕ, ◌==◌, ◌≡◌, Bool, true, false, ◌&&◌, ◌||◌, not, leb, ltb, if◌then◌else◌, List, [], ◌∷◌, ◌++◌,
  length,
}
use argos.Base.Bytes.{Bytes, ◌===◌}
use argos.Base.Split.{split, join, init, last}
use argos.Base.Result.{Result, ok, err, ◌>>=◌}
use argos.Status.{is_empty}

-- `Shape` is a uint8: 0 unary, 1 server streaming, 2 client streaming, 3 bidirectional.
abbrev pub bidi_streaming : ℕ
bidi_streaming = 3

abbrev pub shape_valid : ℕ → Bool
shape_valid s = leb s bidi_streaming

pub record Method : Type 0 where
  pub full_name : Bytes
  pub service : Bytes
  pub name : Bytes
  pub shape : ℕ

pub data BadMethod : Type 0 where
  empty_name bad_shape no_separator empty_segment : BadMethod

abbrev pub any_empty : List Bytes → Bool
any_empty [] = false
any_empty (p ∷ ps) = is_empty p || any_empty ps

-- `NewMethod`.
unfoldable pub new_method : Bytes → ℕ → Result BadMethod Method
new_method full shape =
    let parts = split b'.' full in
    if is_empty full
    then err empty_name
    else if not (shape_valid shape)
    then err bad_shape
    else if ltb (length parts) 2
    then err no_separator
    else if any_empty parts
    then err empty_segment
    else ok (record {
      full_name = full;
      service = join b'.' (init parts);
      name = last parts;
      shape = shape;
    })

-- `Service`.
pub record Service : Type 0 where
  pub full_name : Bytes
  pub methods : List Method

pub data BadService : Type 0 where
  empty_service wrong_service duplicate_name : BadService

abbrev pub has_name : Bytes → List Bytes → Bool
has_name n [] = false
has_name n (m ∷ seen) = m === n || has_name n seen

-- The loop of `NewService`, which returns the methods that it copies to `out`.
unfoldable pub copy_methods : Bytes → List Bytes → List Method → Result BadService (List Method)
copy_methods full seen [] = ok []
copy_methods full seen (m ∷ ms) =
    let rest = copy_methods full (m.name ∷ seen) ms in
    if not (m.service === full)
    then err wrong_service
    else if has_name m.name seen
    then err duplicate_name
    else (rest >>= λ out. ok (m ∷ out))

unfoldable pub new_service : Bytes → List Method → Result BadService Service
new_service full methods =
    if is_empty full
    then err empty_service
    else (copy_methods full [] methods >>= λ out. ok (record { full_name = full; methods = out }))
