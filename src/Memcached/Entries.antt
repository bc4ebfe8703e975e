-- ===== src/Memcached/Entries.antt =====
-- What is stored is loaded again.
use sta_generation_service.Prelude.{ℕ, ◌<◌, ◌==◌, String, false, some, ◌≡◌, ◌⊎◌, refl, ap, arith}
use sta_generation_service.Text.{◌<>◌}
use sta_generation_service.Memcached.{
  Cached, str, bytes, object, Codecs, loaded, unknown_flags, serialize_pickle, text_of, unpickled,
  deserialize_pickle,
}

-- What the codecs promise: UTF-8 decodes what it encodes, and pickle loads what it dumps.
pub record Lossless {B P : Type 0} (codecs : Codecs B P) : Type 0 where
  pub decode_encode : (s : String) → codecs.decode (codecs.encode s) ≡ some s
  pub loads_dumps : (p : P) → codecs.loads (codecs.dumps p) ≡ some (object p)

kept :
    {B P : Type 0} (codecs : Codecs B P)
    → Lossless codecs
    → (key other : String) (value : Cached B P)
    → let (stored, flags) = serialize_pickle codecs key value in
      deserialize_pickle codecs other stored flags ≡ loaded value
unfolding serialize_pickle deserialize_pickle text_of unpickled
kept codecs lossless key other (str s) = ap (text_of codecs) (lossless.decode_encode s)
kept codecs lossless key other (bytes b) = refl
kept codecs lossless key other (object p) = ap (unpickled codecs) (lossless.loads_dumps p)

refused :
    {B P : Type 0} (codecs : Codecs B P) (key : String) (value : B) (flags : ℕ)
    → (flags ≡ 0) ⊎ (3 < flags)
    → deserialize_pickle codecs key value flags
      ≡ unknown_flags
          ("Unknown flags for entry " <> (key <> (" with value: " <> codecs.repr value)))
unfolding deserialize_pickle
refused codecs key value flags h =
    let one : (flags == 1) ≡ false = ground arith in
    let two : (flags == 2) ≡ false = ground arith in
    let three : (flags == 3) ≡ false = ground arith in rw (deserialize_pickle, one, two, three) refl

-- Where the codecs lose nothing, every value that is serialized for a key is deserialized, for any
-- key, to the same value of the same kind, with the flags that stand beside it; flags that no value
-- gets are refused, with the key and the bytes in the message.
pub deserialize-serialize :
    {B P : Type 0} (codecs : Codecs B P)
    → Lossless codecs
    → ((key other : String) (value : Cached B P)
        → let (stored, flags) = serialize_pickle codecs key value in
          deserialize_pickle codecs other stored flags ≡ loaded value)
      × ((key : String) (value : B) (flags : ℕ)
          → (flags ≡ 0) ⊎ (3 < flags)
          → deserialize_pickle codecs key value flags
            ≡ unknown_flags
                ("Unknown flags for entry " <> (key <> (" with value: " <> codecs.repr value))))
deserialize-serialize codecs lossless = (kept codecs lossless, refused codecs)
