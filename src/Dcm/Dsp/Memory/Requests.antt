-- ===== src/Dcm/Dsp/Memory/Requests.antt =====
-- Requests of memory by address as a tester writes them, and what the parsers of
-- core/dcm/src/Dcm_Dsp.c read from them.
use plug_and_play_autosar.Common.{
  ℕ, zero, suc, ◌+◌, ◌-◌, ◌*◌, ◌/◌, ◌%◌, ◌^◌, ◌<◌, ◌≡◌, refl, sym, ap, ◌∙◌, subst, Bool, true,
  false, not, ◌&&◌, if◌then◌else◌, List, [], ◌∷◌, ◌++◌, ltb, ◌==◌, length, drop, take,
  length-append, drop-drop, if_true, take-append, drop-append, arith,
}
use native.Mathlib.Omega.{pow_step}
use plug_and_play_autosar.Dcm.Dsp.Memory.{
  MemoryConfig, Memory, parse_bytes, size_format, address_format, memory_identifier, memory_address,
  memory_length, read_checked, read_memory_by_address,
}

-- The bytes of a number, the most significant one first.
unfoldable pub big_endian : ℕ → ℕ → List ℕ
big_endian zero v = []
big_endian (suc n) v = big_endian n (v / 256) ++ (v % 256 ∷ [])

length-big_endian : (n v : ℕ) → length (big_endian n v) ≡ n
unfolding big_endian
length-big_endian zero v = refl
length-big_endian (suc n) v =
    length-append (big_endian n (v / 256)) _ ∙ ground (arith, length-big_endian n (v / 256))

parse_bytes_snoc :
    (xs : List ℕ) (b v : ℕ) → parse_bytes (xs ++ (b ∷ [])) v ≡ (parse_bytes xs v * 256 + b) % 2 ^ 32
unfolding parse_bytes
parse_bytes_snoc [] b v = refl
parse_bytes_snoc (x ∷ xs) b v = parse_bytes_snoc xs b _

parse_bytes-big_endian : (n v : ℕ) → v < 256 ^ n → v < 2 ^ 32 → parse_bytes (big_endian n v) 0 ≡ v
unfolding big_endian parse_bytes
parse_bytes-big_endian zero v h w = omega (arith, h)
parse_bytes-big_endian (suc n) v h w =
    let power : 256 ^ suc n ≡ 256 * 256 ^ n = pow_step 256 n in
    parse_bytes_snoc (big_endian n (v / 256)) (v % 256) 0
    ∙ ap (λ u. (u * 256 + v % 256) % 2 ^ 32)
        (parse_bytes-big_endian n (v / 256) (omega (arith, h, power)) (omega (arith, w)))
    ∙ omega (arith, w)

-- The request `sid` of memory by address; with memory ids, the id stands before the address. `source`
-- are the bytes that a write adds.
unfoldable pub request : ℕ → Bool → ℕ → ℕ → ℕ → ℕ → ℕ → List ℕ → List ℕ
request sid true id n m address len source =
    sid ∷ (m * 16 + suc n) ∷ id ∷ (big_endian n address ++ (big_endian m len ++ source))
request sid false id n m address len source =
    sid ∷ (m * 16 + n) ∷ (big_endian n address ++ (big_endian m len ++ source))

-- SID_READ_MEMORY_BY_ADDRESS
abbrev pub sid_read_memory_by_address : ℕ
sid_read_memory_by_address = 0x23

-- SID_WRITE_MEMORY_BY_ADDRESS
abbrev pub sid_write_memory_by_address : ℕ
sid_write_memory_by_address = 0x3D

-- What the parsers read.
pub record Parsed (use_id : Bool) (id n m address len : ℕ) (source rx : List ℕ) : Type 0 where
  pub size_is : size_format rx ≡ m
  pub address_is : address_format rx ≡ (if use_id then suc n else n)
  pub id_is : memory_identifier use_id rx ≡ (if use_id then id else 0)
  pub memory_is : memory_address use_id rx ≡ address
  pub length_is : memory_length rx ≡ len
  pub all_bytes : length rx ≡ 2 + (if use_id then suc n else n) + m + length source
  pub rest : drop (2 + (if use_id then suc n else n) + m) rx ≡ source

take-big_endian : (n v : ℕ) (xs : List ℕ) → take n (big_endian n v ++ xs) ≡ big_endian n v
take-big_endian n v xs =
    subst (λ k. take k (big_endian n v ++ xs) ≡ big_endian n v) (length-big_endian n v)
      (take-append (big_endian n v) xs)

drop-big_endian : (n v : ℕ) (xs : List ℕ) → drop n (big_endian n v ++ xs) ≡ xs
drop-big_endian n v xs =
    subst (λ k. drop k (big_endian n v ++ xs) ≡ xs) (length-big_endian n v)
      (drop-append (big_endian n v) xs)

section_bytes :
    (n m address len : ℕ) (source : List ℕ)
    → length (big_endian n address ++ (big_endian m len ++ source)) ≡ n + m + length source
section_bytes n m address len source =
    length-append (big_endian n address) _
    ∙ ground (
      arith,
      length-append (big_endian m len) source,
      length-big_endian n address,
      length-big_endian m len,
    )

-- The parts of a request behind the address format: the address from `i` on, then the length.
parse_address :
    (n address : ℕ) (rest : List ℕ)
    → address < 256 ^ n
    → address < 2 ^ 32
    → parse_bytes (take n (big_endian n address ++ rest)) 0 ≡ address
parse_address n address rest h w =
    ap (λ xs. parse_bytes xs 0) (take-big_endian n address rest)
    ∙ parse_bytes-big_endian n address h w

parse_length :
    (n m address len : ℕ) (source : List ℕ)
    → len < 256 ^ m
    → len < 2 ^ 32
    → parse_bytes (take m (drop n (big_endian n address ++ (big_endian m len ++ source)))) 0 ≡ len
parse_length n m address len source h w =
    ap (λ xs. parse_bytes (take m xs) 0) (drop-big_endian n address _)
    ∙ parse_address m len source h w

parse_rest :
    (n m address len : ℕ) (source : List ℕ)
    → drop (n + m) (big_endian n address ++ (big_endian m len ++ source)) ≡ source
parse_rest n m address len source =
    sym (drop-drop n m (big_endian n address ++ (big_endian m len ++ source)))
    ∙ ap (drop m) (drop-big_endian n address _)
    ∙ drop-big_endian m len source

pub request-Parsed :
    (sid : ℕ) (use_id : Bool) (id n m address len : ℕ) (source : List ℕ)
    → n < 15
    → m < 16
    → address < 256 ^ n
    → address < 2 ^ 32
    → len < 256 ^ m
    → len < 2 ^ 32
    → Parsed use_id id n m address len source (request sid use_id id n m address len source)
unfolding request
request-Parsed sid true id n m address len source hn hm ha wa hl wl =
    let ys = big_endian n address ++ (big_endian m len ++ source) in
    let format : (m * 16 + suc n) % 16 ≡ suc n = omega (arith, hn) in
    let rx = sid ∷ (m * 16 + suc n) ∷ id ∷ ys in
    let before : (m * 16 + suc n) % 16 - 1 ≡ n = omega (arith, hn) in
    let behind : 2 + (m * 16 + suc n) % 16 ≡ suc (suc (suc n)) = omega (arith, hn) in
    let skip : 2 + suc n + m ≡ suc (suc (suc (n + m))) = omega arith in
    let size : (m * 16 + suc n) % 256 / 16 ≡ m = omega (arith, hn, hm) in
    record {
      size_is = size;
      address_is = format;
      id_is = refl;
      memory_is =
          ap (λ k. parse_bytes (take k ys) 0) before
          ∙ parse_address n address (big_endian m len ++ source) ha wa;
      length_is =
          ap (λ k. parse_bytes (take ((m * 16 + suc n) % 256 / 16) (drop k rx)) 0) behind
          ∙ ap (λ k. parse_bytes (take k (drop n ys)) 0) size
          ∙ parse_length n m address len source hl wl;
      all_bytes = ground (arith, section_bytes n m address len source);
      rest = ap (λ k. drop k rx) skip ∙ parse_rest n m address len source;
    }
request-Parsed sid false id n m address len source hn hm ha wa hl wl =
    let ys = big_endian n address ++ (big_endian m len ++ source) in
    let format : (m * 16 + n) % 16 ≡ n = omega (arith, hn) in
    let format0 : (m * 16 + n) % 16 - 0 ≡ n = omega (arith, hn) in
    let rx = sid ∷ (m * 16 + n) ∷ ys in
    let behind : 2 + (m * 16 + n) % 16 ≡ suc (suc n) = omega (arith, hn) in
    let skip : 2 + n + m ≡ suc (suc (n + m)) = omega arith in
    let size : (m * 16 + n) % 256 / 16 ≡ m = omega (arith, hn, hm) in
    record {
      size_is = size;
      address_is = format;
      id_is = refl;
      memory_is =
          ap (λ k. parse_bytes (take k ys) 0) format0
          ∙ parse_address n address (big_endian m len ++ source) ha wa;
      length_is =
          ap (λ k. parse_bytes (take ((m * 16 + n) % 256 / 16) (drop k rx)) 0) behind
          ∙ ap (λ k. parse_bytes (take k (drop n ys)) 0) size
          ∙ parse_length n m address len source hl wl;
      all_bytes = ground (arith, section_bytes n m address len source);
      rest = ap (λ k. drop k rx) skip ∙ parse_rest n m address len source;
    }

-- The parsers of a read recover the memory, the address and the length of a request as a tester
-- writes it: the address fits its bytes, at most 14 of them, and the length its own, at most 15; both
-- fit 32 bits. The id is read if memory ids are used.
pub read_memory_by_address-request :
    (c : MemoryConfig) (id n m address len : ℕ) (s : Memory)
    → 0 < n
    → n < 15
    → 0 < m
    → m < 16
    → address < 256 ^ n
    → address < 2 ^ 32
    → len < 256 ^ m
    → len < 2 ^ 32
    → read_memory_by_address c
        (request sid_read_memory_by_address c.use_memory_id id n m address len [])
        s
      ≡ read_checked c (if c.use_memory_id then id else 0) address len s
unfolding read_memory_by_address
read_memory_by_address-request c id n m address len s pn hn pm hm ha wa hl wl =
    let rx = request sid_read_memory_by_address c.use_memory_id id n m address len [] in
    let p =
      request-Parsed sid_read_memory_by_address c.use_memory_id id n m address len [] hn hm ha wa hl
        wl in
    let k : ltb 1 (length rx) ≡ true = ground (arith, p.all_bytes) in
    let nonzero : (not (address_format rx == 0) && not (size_format rx == 0)) ≡ true =
      ground (arith, p.address_is, p.size_is, pn, pm) in
    let whole : (address_format rx + size_format rx + 2 == length rx) ≡ true =
      ground (arith, p.address_is, p.size_is, p.all_bytes) in
    if_true _ k ∙ if_true _ nonzero ∙ if_true _ whole ∙ rw (p.id_is, p.memory_is, p.length_is) refl
