-- ===== src/Codec/Amr/Frames.antt =====
-- What the AMR parser recovers, and what it answers to a payload that is cut short
-- (internal/codec/amr.go).
use media_ai.Prelude.{
  ℕ, suc, ◌+◌, ◌*◌, ◌/◌, ◌%◌, ◌≤◌, ◌<◌, ◌≡◌, ◌↔◌, refl, ap, sym, ◌∙◌, Bool, true, false, List, [],
  ◌∷◌, ◌++◌, none, ltb, ◌==◌, length, get_or, take, drop, if◌then◌else◌, arith, All, inl, inr,
  Bool-cases, length-append, append_assoc, take_of_length, drop_of_length, take-append-drop,
  length-take,
}
use media_ai.Codec.Amr.{AmrVariant, AmrFrameInfo, frame_table, read_toc, fill, parse_amr_frames}

-- A frame that the format can carry: a four-bit type, and as many bytes as its type has.
abbrev pub IsFrame : List ℕ → AmrFrameInfo → Type 0
IsFrame sizes f = (f.ft < 16) × (length f.payload ≡ get_or sizes f.ft 0)

abbrev pub bit : Bool → ℕ
bit true = 1
bit false = 0

-- The entry of a frame: F(1) FT(4) Q(1) P(2).
abbrev pub toc_entry : Bool → AmrFrameInfo → ℕ
toc_entry more f = 128 * bit more + 8 * f.ft + 4 * bit f.quality

-- The table of contents and the frames' bytes of RFC 4867 for a first frame and the others.
abbrev pub toc_bytes : AmrFrameInfo → List AmrFrameInfo → List ℕ
toc_bytes f [] = toc_entry false f ∷ []
toc_bytes f (g ∷ fs) = toc_entry true f ∷ toc_bytes g fs

abbrev pub frame_bytes : List AmrFrameInfo → List ℕ
frame_bytes [] = []
frame_bytes (f ∷ fs) = f.payload ++ frame_bytes fs

abbrev emptied : AmrFrameInfo → AmrFrameInfo
emptied f = record f { payload = [] }

abbrev all_emptied : List AmrFrameInfo → List AmrFrameInfo
all_emptied [] = []
all_emptied (f ∷ fs) = emptied f ∷ all_emptied fs

entry-fields :
    (more : Bool) (f : AmrFrameInfo)
    → f.ft < 16
    → (toc_entry more f / 8 % 16 ≡ f.ft)
      × ((toc_entry more f / 4 % 2 == 1) ≡ f.quality)
      × ((toc_entry more f / 128 % 2 == 0) ≡ (if more then false else true))
entry-fields more f small = ground arith

read_toc-toc_bytes :
    (sizes : List ℕ) (f : AmrFrameInfo) (fs : List AmrFrameInfo) (rest : List ℕ)
    → IsFrame sizes f
    → All (IsFrame sizes) fs
    → read_toc (toc_bytes f fs ++ rest) ≡ (all_emptied (f ∷ fs), rest)
unfolding read_toc
read_toc-toc_bytes sizes f [] rest ok_f ok_fs =
    let (ft, q, last) = entry-fields false f ok_f.0 in rw (ft, q, last) refl
read_toc-toc_bytes sizes f (g ∷ fs) rest ok_f ok_fs =
    let (ft, q, more) = entry-fields true f ok_f.0 in
    rw (ft, q, more, read_toc-toc_bytes sizes g fs rest ok_fs.0 ok_fs.1) refl

fill-frame_bytes :
    (sizes : List ℕ) (fs : List AmrFrameInfo) (rest : List ℕ)
    → All (IsFrame sizes) fs
    → fill sizes (all_emptied fs) (frame_bytes fs ++ rest) ≡ (fs, none)
unfolding fill
fill-frame_bytes sizes [] rest ok_fs = refl
fill-frame_bytes sizes (f ∷ fs) rest ok_fs =
    let fits : ltb (length ((f.payload ++ frame_bytes fs) ++ rest)) (length f.payload) ≡ false =
      ground (
        arith,
        length-append (f.payload ++ frame_bytes fs) rest,
        length-append f.payload (frame_bytes fs),
      ) in
    rw
      (
        sym ok_fs.0.1,
        fits,
        append_assoc f.payload (frame_bytes fs) rest,
        take_of_length f.payload (frame_bytes fs ++ rest),
        drop_of_length f.payload (frame_bytes fs ++ rest),
        fill-frame_bytes sizes fs rest ok_fs.1,
      )
      refl

some-toc_bytes : (f : AmrFrameInfo) (fs : List AmrFrameInfo) → 0 < length (toc_bytes f fs)
some-toc_bytes f [] = omega arith
some-toc_bytes f (g ∷ fs) = omega arith

-- A payload that is made of any mode byte, the table of contents and the bytes of at least one frame, as
-- RFC 4867 lays them out, is parsed back to these frames without an error, whatever follows.
pub parse_amr_frames-frame_bytes :
    (variant : AmrVariant) (cmr : ℕ) (f : AmrFrameInfo) (fs : List AmrFrameInfo) (rest : List ℕ)
    → All (IsFrame (frame_table variant)) (f ∷ fs)
    → parse_amr_frames (cmr ∷ (toc_bytes f fs ++ (frame_bytes (f ∷ fs) ++ rest))) variant
      ≡ (f ∷ fs, none)
unfolding parse_amr_frames
parse_amr_frames-frame_bytes variant cmr f fs rest ok_fs =
    let bytes = frame_bytes (f ∷ fs) ++ rest in
    let long : ltb (suc (length (toc_bytes f fs ++ bytes))) 2 ≡ false =
      ground (arith, length-append (toc_bytes f fs) bytes, some-toc_bytes f fs) in
    rw
      (
        long,
        read_toc-toc_bytes (frame_table variant) f fs bytes ok_fs.0 ok_fs.1,
        fill-frame_bytes (frame_table variant) (f ∷ fs) rest ok_fs,
      )
      refl

fill-IsFrame :
    (sizes : List ℕ) (toc : List AmrFrameInfo) (bytes : List ℕ)
    → All (λ (f : AmrFrameInfo). f.ft < 16) toc
    → All (IsFrame sizes) (fill sizes toc bytes).0
      × (length (fill sizes toc bytes).0 ≤ length toc)
      × (((fill sizes toc bytes).1 ≡ none) ↔ (length (fill sizes toc bytes).0 ≡ length toc))
      × (rest : List ℕ) × (bytes ≡ frame_bytes (fill sizes toc bytes).0 ++ rest)
unfolding fill
fill-IsFrame sizes [] bytes small = (tt, omega arith, (λ e. refl, λ e. refl), bytes, refl)
fill-IsFrame sizes (f ∷ toc) bytes small =
    elim (Bool-cases (ltb (length bytes) (get_or sizes f.ft 0))) [
      | inl short ↦
          rw (short, fill)
            (tt, omega arith, (λ e. absurd (ground arith), λ e. absurd (omega arith)), bytes, refl)
      | inr enough ↦
          let size = get_or sizes f.ft 0 in
          let (frames, count, full, rest, same) =
            fill-IsFrame sizes toc (drop size bytes) small.1 in
          rw (enough, fill)
            (
              ((small.0, length-take size bytes ∙ ground arith), frames),
              omega arith,
              (λ e. ap suc (full.0 e), λ e. full.1 (omega arith)),
              rest,
              sym (take-append-drop size bytes)
                  ∙ ap (λ l. take size bytes ++ l) same
                  ∙ sym (
                      append_assoc (take size bytes)
                        (frame_bytes (fill sizes toc (drop size bytes)).0) rest),
            )
    ]

read_toc-split :
    (bytes : List ℕ)
    → All (λ (f : AmrFrameInfo). f.ft < 16) (read_toc bytes).0
      × (toc : List ℕ) × (bytes ≡ toc ++ (read_toc bytes).1)
      × (length toc ≡ length (read_toc bytes).0)
unfolding read_toc
read_toc-split [] = (tt, [], refl, refl)
read_toc-split (entry ∷ bytes) = elim (Bool-cases (entry / 128 % 2 == 0)) [
  | inl last ↦ rw (last, read_toc) ((omega arith, tt), entry ∷ [], refl, refl)
  | inr more ↦
      let (small, toc, same, size) = read_toc-split bytes in
      rw (more, read_toc) ((omega arith, small), entry ∷ toc, ap (λ l. entry ∷ l) same, ap suc size)
]

-- For a payload of at least two bytes, each frame that is returned has a type below 16 and as many
-- bytes as the type has; the frames are no more than the entries, and all of them exactly when there
-- is no error; and the payload is a byte, as many bytes as there are entries, then the frames' bytes, then others.
pub parse_amr_frames_lem :
    (variant : AmrVariant) (payload : List ℕ)
    → 2 ≤ length payload
    → (entries : List ℕ) × (rest : List ℕ) × All
        (IsFrame (frame_table variant))
        (parse_amr_frames payload variant).0
      × (length (parse_amr_frames payload variant).0 ≤ length entries)
      × (((parse_amr_frames payload variant).1 ≡ none)
          ↔ (length (parse_amr_frames payload variant).0 ≡ length entries))
      × (drop 1 payload ≡ entries ++ (frame_bytes (parse_amr_frames payload variant).0 ++ rest))
unfolding parse_amr_frames
parse_amr_frames_lem variant payload enough =
    let long : ltb (length payload) 2 ≡ false = ground arith in
    let (small, entries, same, size) = read_toc-split (drop 1 payload) in
    let (frames, count, full, rest, same') =
      fill-IsFrame (frame_table variant) (read_toc (drop 1 payload)).0 (read_toc (drop 1 payload)).1
        small in
    rw long (
      entries,
      rest,
      frames,
      omega (arith, size),
      (λ e. full.0 e ∙ sym size, λ e. full.1 (e ∙ size)),
      same ∙ ap (λ l. entries ++ l) same',
    )
