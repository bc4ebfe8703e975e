-- ===== src/CachedProperties/Bits.antt =====
-- The number that is cached, bit by bit.
use sta_generation_service.Prelude.{
  ℕ, ◌+◌, ◌*◌, ◌/◌, ◌%◌, ◌^◌, ◌<◌, Bool, true, false, if◌then◌else◌, ◌≡◌, sym, ◌∙◌, arith, ◌≤◌,
  Bool-cases, inl, inr,
}
use sta_generation_service.Errors.{ok, >>=-eq-ok}
use sta_generation_service.Models.{Pilot}
use sta_generation_service.CachedProperties.{
  AskStore, has_observation_collection, has_property_on_observation_collection, has_normal_result,
  has_wgs_location, collection_bits, get_integer_code, add_bit, sosa_properties,
}

abbrev pub bit_of : Bool → ℕ
bit_of true = 1
bit_of false = 0

abbrev pub digit : ℕ → ℕ → ℕ
digit n pos = n / 2 ^ pos % 2

add_bit-eq : (n bit : ℕ) (found : Bool) → add_bit n bit found ≡ n + bit_of found * 2 ^ bit
add_bit-eq n bit true = omega arith
add_bit-eq n bit false = omega arith

-- The answers behind a cached number.
pub record Answers (ask : AskStore) (pilot : Pilot) (n : ℕ) : Type 0 where
  pub collection : Bool
  pub normal : Bool
  pub wgs : Bool
  pub feature : Bool
  pub collection_asked : has_observation_collection ask pilot ≡ ok collection
  pub normal_asked : has_normal_result ask pilot ≡ ok normal
  pub wgs_asked : has_wgs_location ask pilot ≡ ok wgs
  pub feature_asked :
      has_property_on_observation_collection ask pilot "sosa:hasFeatureOfInterest" ≡ ok feature
  pub low : ℕ
  pub low_read :
      (if collection then collection_bits ask pilot 0 sosa_properties 0 else ok 0) ≡ ok low
  pub packed : n ≡ low + bit_of normal * 16 + bit_of wgs * 32 + bit_of feature * 64

get_integer_code-Answers :
    (ask : AskStore) (pilot : Pilot) (n : ℕ)
    → get_integer_code ask pilot ≡ ok n
    → Answers ask pilot n
unfolding get_integer_code
get_integer_code-Answers ask pilot n got =
    let (collection, a, got0) = >>=-eq-ok (has_observation_collection ask pilot) _ got in
    let (low, b, got1) =
      >>=-eq-ok (if collection then collection_bits ask pilot 0 sosa_properties 0 else ok 0) _
        got0 in
    let (normal, c, got2) = >>=-eq-ok (has_normal_result ask pilot) _ got1 in
    let (wgs, d, got3) = >>=-eq-ok (has_wgs_location ask pilot) _ got2 in
    let (feature, e, got4) =
      >>=-eq-ok (has_property_on_observation_collection ask pilot "sosa:hasFeatureOfInterest") _
        got3 in
    let sum : add_bit (add_bit (add_bit low 4 normal) 5 wgs) 6 feature ≡ n = ground arith in
    record {
      collection = collection;
      normal = normal;
      wgs = wgs;
      feature = feature;
      collection_asked = a;
      normal_asked = c;
      wgs_asked = d;
      feature_asked = e;
      low = low;
      low_read = b;
      packed =
          sym sum
          ∙ omega (
            arith,
            add_bit-eq low 4 normal,
            add_bit-eq (add_bit low 4 normal) 5 wgs,
            add_bit-eq (add_bit (add_bit low 4 normal) 5 wgs) 6 feature,
          );
    }

-- The answers about the four properties of an observation collection.
pub record LowBits (ask : AskStore) (pilot : Pilot) (low : ℕ) : Type 0 where
  pub time : Bool
  pub result_time : Bool
  pub sensor : Bool
  pub property : Bool
  pub time_asked : has_property_on_observation_collection ask pilot "sosa:phenomenonTime" ≡ ok time
  pub result_time_asked :
      has_property_on_observation_collection ask pilot "sosa:resultTime" ≡ ok result_time
  pub sensor_asked :
      has_property_on_observation_collection ask pilot "sosa:madeBySensor" ≡ ok sensor
  pub property_asked :
      has_property_on_observation_collection ask pilot "sosa:observedProperty" ≡ ok property
  pub packed : low ≡ bit_of time + bit_of result_time * 2 + bit_of sensor * 4 + bit_of property * 8

collection_bits-LowBits :
    (ask : AskStore) (pilot : Pilot) (low : ℕ)
    → collection_bits ask pilot 0 sosa_properties 0 ≡ ok low
    → LowBits ask pilot low
unfolding collection_bits
collection_bits-LowBits ask pilot low got =
    let has = has_property_on_observation_collection ask pilot in
    let (t, a, got0) = >>=-eq-ok (has "sosa:phenomenonTime") _ got in
    let (r, b, got1) = >>=-eq-ok (has "sosa:resultTime") _ got0 in
    let (s, c, got2) = >>=-eq-ok (has "sosa:madeBySensor") _ got1 in
    let (p, d, got3) = >>=-eq-ok (has "sosa:observedProperty") _ got2 in
    let sum : add_bit (add_bit (add_bit (add_bit 0 0 t) 1 r) 2 s) 3 p ≡ low = ground arith in
    record {
      time = t;
      result_time = r;
      sensor = s;
      property = p;
      time_asked = a;
      result_time_asked = b;
      sensor_asked = c;
      property_asked = d;
      packed =
          sym sum
          ∙ omega (
            arith,
            add_bit-eq 0 0 t,
            add_bit-eq (add_bit 0 0 t) 1 r,
            add_bit-eq (add_bit (add_bit 0 0 t) 1 r) 2 s,
            add_bit-eq (add_bit (add_bit (add_bit 0 0 t) 1 r) 2 s) 3 p,
          );
    }

bit_of-le : (b : Bool) → bit_of b ≤ 1
bit_of-le true = omega arith
bit_of-le false = omega arith

-- The four low digits, and that there are no more.
abbrev pub LowDigits : ℕ → ℕ → ℕ → ℕ → ℕ → Type 0
LowDigits n a b c d = (digit n 0 ≡ a) × (digit n 1 ≡ b) × (digit n 2 ≡ c) × (digit n 3 ≡ d)

module _ {ask : AskStore} {pilot : Pilot} {n : ℕ} (a : Answers ask pilot n) where
  no_low : a.collection ≡ false → a.low ≡ 0
  no_low off = ground (arith, a.low_read)

  low_bits : a.collection ≡ true → LowBits ask pilot a.low
  low_bits on = collection_bits-LowBits ask pilot a.low (rw on at a.low_read)

  low-lt : a.low < 16
  low-lt = elim (Bool-cases a.collection) [
    | inl on ↦
        let l = low_bits on in
        omega (
          arith,
          l.packed,
          bit_of-le l.time,
          bit_of-le l.result_time,
          bit_of-le l.sensor,
          bit_of-le l.property,
        )
    | inr off ↦ omega (arith, no_low off)
  ]

  high_digits :
      (digit n 4 ≡ bit_of a.normal)
      × (digit n 5 ≡ bit_of a.wgs)
      × (digit n 6 ≡ bit_of a.feature)
      × (n < 128)
  high_digits =
      omega (arith, a.packed, low-lt, bit_of-le a.normal, bit_of-le a.wgs, bit_of-le a.feature)

  no_low-LowDigits : a.collection ≡ false → LowDigits n 0 0 0 0
  no_low-LowDigits off = omega (arith, a.packed, no_low off)

  low_digits :
      (l : LowBits ask pilot a.low)
      → LowDigits n (bit_of l.time) (bit_of l.result_time) (bit_of l.sensor) (bit_of l.property)
  low_digits l = omega (
    arith,
    a.packed,
    l.packed,
    bit_of-le l.time,
    bit_of-le l.result_time,
    bit_of-le l.sensor,
    bit_of-le l.property,
  )

-- Where the seven questions are answered, the number that is cached is below 128; its digits 4, 5
-- and 6 are the answers about normal results, WGS84 locations and features of interest; its digits
-- 0 to 3 are the answers about the four properties of an observation collection if there is one, and
-- 0 if there is none.
pub get_integer_code-digits :
    (ask : AskStore) (pilot : Pilot) (n : ℕ)
    → get_integer_code ask pilot ≡ ok n
    → (a : Answers ask pilot n) × ((digit n 4 ≡ bit_of a.normal)
        × (digit n 5 ≡ bit_of a.wgs)
        × (digit n 6 ≡ bit_of a.feature)
        × (n < 128))
      × (a.collection ≡ false → LowDigits n 0 0 0 0)
      × (a.collection ≡ true
          → (l : LowBits ask pilot a.low) × LowDigits n
              (bit_of l.time)
              (bit_of l.result_time)
              (bit_of l.sensor)
              (bit_of l.property))
get_integer_code-digits ask pilot n got =
    let a = get_integer_code-Answers ask pilot n got in
    (a, high_digits a, no_low-LowDigits a, λ on. (low_bits a on, low_digits a (low_bits a on)))
