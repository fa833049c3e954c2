-- ===== src/Tests/Prints.antt =====
-- What is printed of a frame, at concrete inputs.
use cannelloni.Prelude.{◌≡◌, refl, none, some, [], ◌∷◌, arith, replicate}
use cannelloni.Frame.{Frame, has_data}
use cannelloni.Logging.{print_data, data_byte}
use cannelloni.Logging.Overread.{print_data_lem}

abbrev small : Frame
small = record { addr = 0; can_id = 5; len = 2; flags = 0; payload = replicate 64 7 }

-- A length that no array of 64 bytes has.
abbrev too_long : Frame
too_long = record small { len = 65 }

print_data_lem_example : print_data small ≡ some (data_byte 7 ∷ (data_byte 7 ∷ []))
unfolding has_data
print_data_lem_example = print_data_lem small (omega arith) refl

overread : print_data too_long ≡ none
unfolding has_data
overread = print_data_lem too_long (omega arith) refl
