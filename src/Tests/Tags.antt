-- ===== src/Tests/Tags.antt =====
-- A pointer to the address 1000 with the tag 123, which becomes 65535.
use fact_db.Prelude.{◌%◌, ◌^◌, ◌≡◌, refl, true, false, arith}
use fact_db.TaggedPointer.{
  TaggedPointer, IsWord, new, update_tag, get_pointer, get_tag, get_raw, from_raw_ptr,
}
use fact_db.TaggedPointer.Words.{new_lem, update_tag_lem}

new_lem_example :
    IsWord (new true 1000 123)
    × (get_pointer true (new true 1000 123) ≡ 1000 % 2 ^ 48)
    × (get_tag true (new true 1000 123) ≡ 123)
    × (from_raw_ptr true (get_raw (new true 1000 123)) ≡ new true 1000 123)
    × (get_pointer false (new false 1000 123) ≡ 1000)
    × (get_tag false (new false 1000 123) ≡ 0)
new_lem_example = new_lem 1000 123 (omega arith)

abbrev tagged : TaggedPointer
tagged = record { ptr = 65536123 }

update_tag_lem_example :
    IsWord (update_tag true tagged 65535)
    × (get_pointer true (update_tag true tagged 65535) ≡ get_pointer true tagged)
    × (get_tag true (update_tag true tagged 65535) ≡ 65535)
update_tag_lem_example = update_tag_lem tagged 65535 (omega arith) (omega arith)

tagged_runs : new true 1000 123 ≡ tagged
unfolding new fact_db.TaggedPointer.tagging_bits
tagged_runs = refl
