-- ===== src/Storage/Memory.antt =====
-- An object store in memory: it meets the laws, also if it refuses every delete.
use tempcdn.Prelude.{◌≡◌, ◌≢◌, inl, inr, refl, false, Option, none, some, Bool-cases, if◌then◌else◌}
use tempcdn.Text.{Text, same}
use tempcdn.Text.Laws.{same_iff, same_refl}
use tempcdn.Metadata.Model.{Cause}
use tempcdn.Storage.{Bytes, PutObjectInput, ObjectStorage}

abbrev pub Memory : Type 0
Memory = Text → Option Bytes

unfoldable pub put_memory : PutObjectInput → Memory → Option Cause × Memory
put_memory i m = (none, λ k. if same k i.key then some i.body else m k)

unfoldable pub delete_memory : Text → Memory → Option Cause × Memory
delete_memory j m = (none, λ k. if same k j then none else m k)

unfoldable pub refuse_delete : Text → Memory → Option Cause × Memory
refuse_delete j m = (some Cause.other, m)

same-eq_false : (s t : Text) → s ≢ t → same s t ≡ false
same-eq_false s t h = elim (Bool-cases (same s t)) [
  | inl e ↦ absurd (h ((same_iff s t).0 e))
  | inr e ↦ e
]

pub put_lem : (i : PutObjectInput) (m : Memory) → (put_memory i m).1 i.key ≡ some i.body
unfolding put_memory
put_lem i m = rw (same_refl i.key)

pub put_ne : (i : PutObjectInput) (m : Memory) (k : Text) → k ≢ i.key → (put_memory i m).1 k ≡ m k
unfolding put_memory
put_ne i m k h = rw (same-eq_false k i.key h)

pub delete_lem : (j : Text) (m : Memory) → (delete_memory j m).1 j ≡ none
unfolding delete_memory
delete_lem j m = rw (same_refl j)

pub delete_ne : (j : Text) (m : Memory) (k : Text) → k ≢ j → (delete_memory j m).1 k ≡ m k
unfolding delete_memory
delete_ne j m k h = rw (same-eq_false k j h)

pub refuse_lem :
    (j : Text) (m : Memory) → (refuse_delete j m).0 ≡ none → (refuse_delete j m).1 j ≡ none
unfolding refuse_delete
refuse_lem j m h = cc

pub refuse_same : (j : Text) (m : Memory) (k : Text) → (refuse_delete j m).1 k ≡ m k
unfolding refuse_delete
refuse_same j m k = refl

abbrev pub memory_storage : ObjectStorage Memory
memory_storage = record {
  put_object = put_memory;
  delete_object = delete_memory;
  object = λ m k. m k;
  object-put = λ i m _. put_lem i m;
  object-put_ne = put_ne;
  object-delete = λ j m _. delete_lem j m;
  object-delete_ne = delete_ne;
  object-delete_cases = λ j m. inr (delete_lem j m);
}

abbrev pub refusing_storage : ObjectStorage Memory
refusing_storage = record {
  put_object = put_memory;
  delete_object = refuse_delete;
  object = λ m k. m k;
  object-put = λ i m _. put_lem i m;
  object-put_ne = put_ne;
  object-delete = refuse_lem;
  object-delete_ne = λ j m k _. refuse_same j m k;
  object-delete_cases = λ j m. inl (refuse_same j m j);
}
