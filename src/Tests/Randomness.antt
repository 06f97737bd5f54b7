-- ===== src/Tests/Randomness.antt =====
-- Runs of src/random.h and src/random.cpp.
use librtcbase.Prelude.{◌≢◌, ◌≤◌, ◌<◌, ◌^◌, arith}
use librtcbase.Random.{Random, next_output, rand_between}
use librtcbase.Random.Output.{next_output_lem}
use librtcbase.Random.Ranges.{rand_between_lem}

abbrev seeded : Random
seeded = record { state = 42 }

next_output_lem_example :
    ((next_output seeded).0 ≢ 0)
    × ((next_output seeded).0 < 2 ^ 64)
    × ((next_output seeded).1.state ≢ 0)
    × ((next_output seeded).1.state < 2 ^ 64)
next_output_lem_example = next_output_lem seeded (omega arith) (omega arith)

rand_between_lem_example :
    (10 ≤ (rand_between seeded 10 20).0) × ((rand_between seeded 10 20).0 ≤ 20)
rand_between_lem_example = rand_between_lem seeded 10 20 (omega arith) (omega arith)
