-- ===== src/Protocol/Layout.antt =====
-- The struct `dt_header_t` of inc/protocol.h as bytes in memory.
use demotool.Base.{ℕ, ◌<◌, ◌^◌, ◌≡◌, refl, List, [], ◌∷◌, ◌++◌, arith, length, take, drop, get_or}
use demotool.Protocol.{Header, Endian, little, big, store32, load32, be16, of_be16, of_be32-be32}

-- The bytes of the struct in the memory of a host. `reserved` is 0 wherever a header is made, so
-- its byte order does not show.
unfoldable pub store_header : Endian → Header → List ℕ
unfolding store32 be16
store_header e h =
    h.hdr_tag_len_ver
    ++ (h.plugin_tag_ver
        ++ ((h.major ∷ h.minor ∷ [])
            ++ (be16 h.reserved
                ++ (store32 e h.flags
                    ++ (store32 e h.size
                        ++ (store32 e h.addr ++ (store32 e h.jump ++ h.extension)))))))

-- The struct that a pointer to bytes gives, on a host.
unfoldable pub load_header : Endian → List ℕ → Header
unfolding load32 of_be16
load_header e bs = record {
  hdr_tag_len_ver = take 4 bs;
  plugin_tag_ver = take 4 (drop 4 bs);
  major = get_or (drop 8 bs) 0 0;
  minor = get_or (drop 9 bs) 0 0;
  reserved = of_be16 (take 2 (drop 10 bs));
  flags = load32 e (take 4 (drop 12 bs));
  size = load32 e (take 4 (drop 16 bs));
  addr = load32 e (take 4 (drop 20 bs));
  jump = load32 e (take 4 (drop 24 bs));
  extension = drop 28 bs;
}

-- The fields of a header have the sizes of the struct's, and their bytes are bytes.
pub record IsHeader (h : Header) : Type 0 where
  pub tag_length : length h.hdr_tag_len_ver ≡ 4
  pub plugin_length : length h.plugin_tag_ver ≡ 4
  pub reserved_zero : h.reserved ≡ 0
  pub flags_u32 : h.flags < 2 ^ 32
  pub size_u32 : h.size < 2 ^ 32
  pub addr_u32 : h.addr < 2 ^ 32
  pub jump_u32 : h.jump < 2 ^ 32

pub four : (bs : List ℕ) → length bs ≡ 4 → (a b c d : ℕ) × (bs ≡ a ∷ b ∷ c ∷ d ∷ [])
four [] h = absurd (omega arith)
four (a ∷ []) h = absurd (omega arith)
four (a ∷ b ∷ []) h = absurd (omega arith)
four (a ∷ b ∷ c ∷ []) h = absurd (omega arith)
four (a ∷ b ∷ c ∷ d ∷ []) h = (a, b, c, d, refl)
four (a ∷ b ∷ c ∷ d ∷ e ∷ bs) h = absurd (omega arith)

pub load32-store32 : (e : Endian) (v : ℕ) → v < 2 ^ 32 → load32 e (store32 e v) ≡ v
unfolding load32 store32
load32-store32 big v h = of_be32-be32 v h
load32-store32 little v h = omega arith

-- A pointer to the bytes of a struct gives its fields, whatever follows the fixed part.
pub load_header-parts :
    (e : Endian) (ma mi r s : ℕ) (tag plugin flags size addr jump ext : List ℕ)
    → length tag ≡ 4
    → length plugin ≡ 4
    → length flags ≡ 4
    → length size ≡ 4
    → length addr ≡ 4
    → length jump ≡ 4
    → load_header e (
        tag
        ++ (plugin
            ++ ((ma ∷ mi ∷ []) ++ ((r ∷ s ∷ []) ++ (flags ++ (size ++ (addr ++ (jump ++ ext))))))))
      ≡ record {
        hdr_tag_len_ver = tag;
        plugin_tag_ver = plugin;
        major = ma;
        minor = mi;
        reserved = of_be16 (r ∷ s ∷ []);
        flags = load32 e flags;
        size = load32 e size;
        addr = load32 e addr;
        jump = load32 e jump;
        extension = ext;
      }
unfolding load_header
load_header-parts e ma mi r s tag plugin flags size addr jump ext ht hp hf hs ha hj =
    let (t0, t1, t2, t3, et) = four tag ht in
    let (p0, p1, p2, p3, ep) = four plugin hp in
    let (f0, f1, f2, f3, ef) = four flags hf in
    let (s0, s1, s2, s3, es) = four size hs in
    let (a0, a1, a2, a3, ea) = four addr ha in
    let (j0, j1, j2, j3, ej) = four jump hj in rw (et, ep, ef, es, ea, ej) refl

pub length-store32 : (e : Endian) (v : ℕ) → length (store32 e v) ≡ 4
unfolding store32
length-store32 big v = refl
length-store32 little v = refl
