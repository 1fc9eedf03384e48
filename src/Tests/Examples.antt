-- ===== src/Tests/Examples.antt =====
-- The properties of the other modules at concrete inputs.
use microtbx.Base.{
  ℕ, suc, ◌+◌, ◌-◌, ◌/◌, ◌%◌, ◌^◌, ◌≡◌, ◌≢◌, ◌⊎◌, ◌≤◌, ◌<◌, refl, ap, ap₂, arith, true, false, none,
  some, List, [], ◌∷◌, map, length,
}
use microtbx.Target.{null}
use microtbx.CritSect.Nested.{Paired, run, Restored, run-Restored}
use microtbx.Heap
use microtbx.Heap.{Heap, get_free}
use microtbx.Heap.Bounds.{
  IsHeap, Outcome, allocate_lem, allocate-IsHeap, allocate_wrap, allocate-Restored,
  get_free-allocate,
}
use microtbx.Heap.Requests.{requests, Ordered, requests-Ordered}
use microtbx.Checksum.{crc16_calculate, crc32_calculate}
use microtbx.Checksum.Residue.{calculate-residue}
use microtbx.Checksum.Errors.{calculate-byte_error}
use microtbx.Random.{Random, init_lfsrs, number_get}
use microtbx.Random.Numbers.{IsRandom, four_shifts32, two_shifts31, number_get-IsRandom}
use microtbx.Random.Cycle.{gets, number_16bit_get-injective, number_get-stuck}
use microtbx.Crypto.{Aes, encrypt, decrypt}
use microtbx.Crypto.RoundTrip.{IsAes, decrypt-encrypt}
use microtbx.Tests.{simple_port, small, start}
use microtbx.Tests.Stocked.{small-IsConfig, simple-IsPort, stocked-Ready1}

-- Half of the buffer is taken.
abbrev half : Heap
half = record { crit = start.heap.crit; allocated = 200 }

half-IsHeap : IsHeap small half
half-IsHeap = record { within = omega arith }

allocate_lem_example : Outcome small 13 half (Heap.allocate small 13 half)
allocate_lem_example =
    allocate_lem {c = small} {h = half} 13 small-IsConfig half-IsHeap (omega arith)

allocate-IsHeap_example : IsHeap small (Heap.allocate small 13 half).1
allocate-IsHeap_example = allocate-IsHeap {c = small} {h = half} 13 small-IsConfig half-IsHeap

allocate_wrap_example :
    ((Heap.allocate small (2 ^ 64 - 1) half).0 ≡ 4296)
    × ((Heap.allocate small (2 ^ 64 - 1) half).0 ≢ null)
    × ((Heap.allocate small (2 ^ 64 - 1) half).1.allocated ≡ 200)
allocate_wrap_example =
    allocate_wrap {c = small} {h = half} (2 ^ 64 - 1) small-IsConfig half-IsHeap (omega arith)
      (omega arith)

allocate-Restored_example : Restored start.heap.crit (Heap.allocate small 13 half).1.crit
allocate-Restored_example = allocate-Restored small half 13 simple-IsPort stocked-Ready1.sections

abbrev half_request : ℕ
half_request = 13

get_free-allocate_example :
    ((get_free small half).0 + 200 ≡ 400)
    × ((((Heap.allocate small 13 half).0 ≡ null)
          × ((get_free small (Heap.allocate small 13 half).1).0 ≡ (get_free small half).0)
          × ((half_request ≡ 0) ⊎ ((get_free small half).0 < 16)))
        ⊎ (((Heap.allocate small 13 half).0 ≢ null)
            × ((get_free small (Heap.allocate small 13 half).1).0 + 16 ≡ (get_free small half).0)))
get_free-allocate_example =
    get_free-allocate {c = small} {h = half} 13 small-IsConfig half-IsHeap (omega arith)

requests-Ordered_example :
    Ordered 4296
      (4096 + (requests small (13 ∷ 300 ∷ 8 ∷ []) half).1.allocated)
      (requests small (13 ∷ 300 ∷ 8 ∷ []) half).0
    × ((requests small (13 ∷ 300 ∷ 8 ∷ []) half).1.allocated ≤ 400)
requests-Ordered_example =
    requests-Ordered {c = small} (13 ∷ 300 ∷ 8 ∷ []) {h = half} small-IsConfig half-IsHeap
      (omega arith, (omega arith, (omega arith, tt)))

-- A section inside a section, and one behind them.
abbrev two_deep : Paired
two_deep =
    Paired.section (Paired.section Paired.done Paired.done) (Paired.section Paired.done Paired.done)

run-Restored_example : Restored start.heap.crit (run simple_port two_deep start.heap.crit)
run-Restored_example =
    run-Restored {p = simple_port} two_deep {s = start.heap.crit} simple-IsPort
      (record { room = omega arith; masked = λ h. absurd (omega (arith, h)) })

calculate-residue_example :
    let r = crc16_calculate (some (49 ∷ 50 ∷ [])) in
    let t = crc32_calculate (some (49 ∷ 50 ∷ [])) in
    (crc16_calculate (some (49 ∷ 50 ∷ r / 256 ∷ r % 256 ∷ [])) ≡ 0)
    × (crc32_calculate
          (some (49 ∷ 50 ∷ t / 2 ^ 24 ∷ t / 2 ^ 16 % 256 ∷ t / 2 ^ 8 % 256 ∷ t % 256 ∷ []))
        ≡ 0)
calculate-residue_example = calculate-residue 49 (50 ∷ [])

calculate-byte_error_example :
    (crc16_calculate (some (49 ∷ 50 ∷ 51 ∷ [])) ≢ crc16_calculate (some (49 ∷ 18 ∷ 51 ∷ [])))
    × (crc32_calculate (some (49 ∷ 50 ∷ 51 ∷ [])) ≢ crc32_calculate (some (49 ∷ 18 ∷ 51 ∷ [])))
calculate-byte_error_example =
    calculate-byte_error (49 ∷ []) 50 18 (51 ∷ []) (omega arith) (omega arith) (omega arith)

-- Before the first call, without a handler and with one.
abbrev unseeded : Random
unseeded = record {
  seed_init_handler = none;
  seeded = false;
  lfsr32 = 0;
  lfsr31 = 0;
  crit = start.heap.crit;
}

abbrev unlucky : Random
unlucky = record unseeded { seed_init_handler = some (λ _. 0xF4B785C7) }

abbrev running : Random
running = record unseeded { seeded = true; lfsr32 = 5; lfsr31 = 9 }

number_get-IsRandom_example :
    ((number_get small unseeded).0 < 2 ^ 32)
    × IsRandom (number_get small unseeded).1
    × ((number_get small unseeded).1.seeded ≡ true)
    × ((number_get small unseeded).1.lfsr32 ≡ four_shifts32 (init_lfsrs unseeded).lfsr32)
    × ((number_get small unseeded).1.lfsr31 ≡ two_shifts31 (init_lfsrs unseeded).lfsr31)
    × Restored start.heap.crit (number_get small unseeded).1.crit
number_get-IsRandom_example =
    number_get-IsRandom small unseeded simple-IsPort stocked-Ready1.sections
      (λ e. record { lfsr32 = cc; lfsr31 = cc }) (omega arith)

running-IsRandom : IsRandom running
running-IsRandom = record {
  lfsr32 = (omega arith, omega arith);
  lfsr31 = (omega arith, omega arith);
}

number_16bit_get-injective_example :
    (running.lfsr32 ≡ running.lfsr32) × (running.lfsr31 ≡ running.lfsr31)
number_16bit_get-injective_example =
    number_16bit_get-injective small running running running-IsRandom running-IsRandom refl refl

number_get-stuck_example : (gets 4 small unlucky).lfsr31 ≡ 0
number_get-stuck_example = number_get-stuck 3 small unlucky refl refl

-- A cipher that adds one to each byte.
abbrev shifting : Aes
shifting = record {
  Context = List ℕ;
  init = λ key. key;
  encrypt_ecb = λ ctx block. (ctx, map suc block);
  decrypt_ecb = λ ctx block. (ctx, map (λ b. b - 1) block);
}

length-map-suc : (xs : List ℕ) → length (map suc xs) ≡ length xs
length-map-suc [] = refl
length-map-suc (x ∷ xs) = ap suc (length-map-suc xs)

map-map-suc : (xs : List ℕ) → map (λ b. b - 1) (map suc xs) ≡ xs
map-map-suc [] = refl
map-map-suc (x ∷ xs) = ap₂ ◌∷◌ (omega arith) (map-map-suc xs)

shifting-IsAes : IsAes shifting
shifting-IsAes = record {
  ForKey = λ key ctx. ctx ≡ key;
  init-ForKey = λ key. refl;
  encrypt-ForKey = λ key ctx block h. h;
  decrypt-ForKey = λ key ctx block h. h;
  length-encrypt = λ key ctx block h e. omega (arith, length-map-suc block, e);
  decrypt-encrypt = λ key ctx ctx' block h h' e. map-map-suc block;
}

abbrev sixteen : List ℕ
sixteen = 1 ∷ 2 ∷ 3 ∷ 4 ∷ 5 ∷ 6 ∷ 7 ∷ 8 ∷ 9 ∷ 10 ∷ 11 ∷ 12 ∷ 13 ∷ 14 ∷ 15 ∷ 16 ∷ []

decrypt-encrypt_example :
    decrypt shifting (encrypt shifting (some sixteen) (some [])) (some []) ≡ some sixteen
decrypt-encrypt_example = decrypt-encrypt shifting shifting-IsAes (some sixteen) (some [])
