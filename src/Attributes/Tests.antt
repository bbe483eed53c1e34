-- ===== src/Attributes/Tests.antt =====
-- Attribute sets and sets of values at work, and examples of their theorems.
use log.Prelude.{ℕ, suc, ◌+◌, ◌≡◌, refl, true, List, [], ◌∷◌, none, some, if◌then◌else◌, ◌==◌}
use log.Attributes.Nodes.{
  Table, bucket_index, insert, find, erase, erase_key, empty, size, find_in_bucket, insert_node,
  shrink, copy_nodes, push_back,
}
use log.Attributes.Nodes.Inserted.{Sound}
use log.Attributes.Nodes.Mapping.{
  Request, add, remove, duplicate, serve, serve_all, expected_all, serve_all_lem, empty-Sound,
  insert_lem, erase_key_lem, add_entry, remove_entry, is_none,
}
use log.Attributes.Values.{
  ValueSet, create_from_sets, create_empty, find_value, freeze, freeze_one, acquire, add_node,
  copy_values, create_from_values, create_moved,
}
use log.Attributes.Values.{insert as insert_value}
use log.Attributes.Values.Adding.{
  acquired, offered, looked_up, value_of, IsSound, find_value_lem, find_value_twice,
}
use log.Attributes.Values.Freezing.{Settled}
use log.Attributes.Values.Frozen.{freeze_lem, sets_of}
use log.Attributes.Values.Calls.{
  Call, look, put, freeze_all, call_all, call_all_lem, IsWellFormed, Keeps,
}

-- The identifiers 1, 17 and 33 share a bucket.
abbrev requests : List (Request ℕ)
requests = add 17 10 ∷ add 2 20 ∷ add 1 30 ∷ add 17 40 ∷ add 33 50 ∷ []

abbrev three : Table ℕ
three = serve_all empty (add 17 10 ∷ add 2 20 ∷ add 1 30 ∷ [])

three-Sound : Sound three
three-Sound = (serve_all_lem empty (add 17 10 ∷ add 2 20 ∷ add 1 30 ∷ []) empty-Sound).0

buckets :
    ((serve_all empty requests).nodes ≡ (1, 30) ∷ (17, 10) ∷ (33, 50) ∷ (2, 20) ∷ [])
    × ((serve_all empty requests).buckets 1 ≡ some (1, 33))
    × ((serve (serve_all empty requests) (remove 33)).buckets 1 ≡ some (1, 17))
    × ((serve (serve_all empty requests) (remove 1)).buckets 1 ≡ some (17, 33))
    × ((serve (serve_all empty requests) duplicate).buckets 1 ≡ some (1, 33))
    × (find (serve_all empty requests) 17 ≡ some 10)
unfolding serve insert find erase_key erase find_in_bucket insert_node shrink copy_nodes push_back
    bucket_index
buckets = (refl, refl, refl, refl, refl, refl)

insert_lem_example :
    Sound (insert three 33 5).0
    × ((k : ℕ) → find (insert three 33 5).0 k ≡ add_entry 33 5 (find three) k)
    × ((insert three 33 5).1 ≡ is_none (find three 33))
    × (size (insert three 33 5).0
        ≡ (if is_none (find three 33) then suc (size three) else size three))
insert_lem_example = insert_lem three 33 5 three-Sound

erase_key_lem_example :
    Sound (erase_key three 17).0
    × ((k : ℕ) → find (erase_key three 17).0 k ≡ remove_entry 17 (find three) k)
    × ((erase_key three 17).1 ≡ (if is_none (find three 17) then 0 else 1))
    × (size (erase_key three 17).0 + (erase_key three 17).1 ≡ size three)
erase_key_lem_example = erase_key_lem three 17 three-Sound

serve_all_lem_example :
    Sound (serve_all three (add 33 5 ∷ remove 1 ∷ duplicate ∷ []))
    × ((k : ℕ)
        → find (serve_all three (add 33 5 ∷ remove 1 ∷ duplicate ∷ [])) k
          ≡ expected_all (find three) (add 33 5 ∷ remove 1 ∷ duplicate ∷ []) k)
serve_all_lem_example = serve_all_lem three (add 33 5 ∷ remove 1 ∷ duplicate ∷ []) three-Sound

-- An attribute gives the sum of itself and a counter, which goes on.
abbrev get_value : ℕ → ℕ → ℕ × ℕ
get_value a w = (a + w, w + 1)

abbrev values : ValueSet ℕ ℕ
values = create_from_sets three three three 2

searches :
    (find_value get_value values 17 100 ≡ ((find_value get_value values 17 100).0, some 110, 101))
    × (acquired (freeze get_value values 100).0 2 ≡ some 122)
    × ((freeze get_value values 100).1 ≡ 103)
    × ((freeze get_value values 100).0.room ≡ 8)
    × ((copy_values get_value values 100).0.values.nodes ≡ (1, 130) ∷ (17, 111) ∷ (2, 122) ∷ [])
    × ((create_from_values get_value values three three 1 100).0.room ≡ 7)
    × ((insert_value values 5 9).1 ≡ true)
    × ((insert_value (create_moved values empty empty) 5 9).0.room ≡ 10)
    × ((insert_value (create_empty {A = ℕ} {V = ℕ} 0) 5 9).0.dynamic_nodes ≡ 1)
unfolding serve insert find find_in_bucket insert_node bucket_index find_value freeze freeze_one
    acquire add_node copy_values create_from_values copy_nodes push_back insert_value
searches = (refl, refl, refl, refl, refl, refl, refl, refl, refl)

find_value_lem_example :
    IsSound (find_value get_value values 17 100).0
    × (looked_up get_value values 17 100
        ≡ value_of get_value (acquired values 17) (offered values 17) 100)
    × ((k : ℕ)
        → acquired (find_value get_value values 17 100).0 k
          ≡ (if k == 17 then (find_value get_value values 17 100).1 else acquired values k))
find_value_lem_example = find_value_lem get_value values 17 100 empty-Sound

find_value_twice_example :
    find_value get_value (find_value get_value values 17 100).0 17 200
    ≡ ((find_value get_value values 17 100).0, (find_value get_value values 17 100).1, 200)
find_value_twice_example = find_value_twice get_value values 17 100 200 empty-Sound

freeze_lem_example :
    IsSound (freeze get_value values 100).0
    × ((k : ℕ)
        → Settled get_value
            (acquired values k)
            (offered values k)
            (acquired (freeze get_value values 100).0 k))
    × (sets_of (freeze get_value values 100).0 ≡ (none, none, none))
freeze_lem_example = freeze_lem get_value values 100 empty-Sound three-Sound three-Sound three-Sound

values-IsWellFormed : IsWellFormed values
values-IsWellFormed = record {
  values_sound = empty-Sound;
  source_sound = three-Sound;
  thread_sound = three-Sound;
  global_sound = three-Sound;
}

abbrev calls : List (Call ℕ)
calls = put 5 9 ∷ look 17 ∷ put 17 3 ∷ freeze_all ∷ []

-- The same set after the first search.
abbrev begun : ValueSet ℕ ℕ
begun = (call_all get_value (values, 100) (look 17 ∷ [])).0

call_all_lem_example :
    IsWellFormed (call_all get_value (begun, 101) calls).0
    × Keeps begun (call_all get_value (begun, 101) calls).0
call_all_lem_example =
    call_all_lem get_value begun 101 calls
      (call_all_lem get_value values 100 (look 17 ∷ []) values-IsWellFormed).0
