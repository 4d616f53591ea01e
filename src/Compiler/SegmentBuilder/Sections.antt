-- ===== src/Compiler/SegmentBuilder/Sections.antt =====
-- Where the data and the elements of a passive segment stay.
use rwasm.Base.{
  ℕ, ◌+◌, ◌-◌, ◌%◌, ◌^◌, ◌<◌, arith, min, leb, ◌≡◌, ◌≢◌, refl, sym, ap, ◌∙◌, true, some, List, [],
  ◌∷◌, ◌++◌, length, ◌==◌, ==_iff, Bool-cases, inl, inr, append_assoc, append-nil,
}
use rwasm.Types.Value.{ValType}
use rwasm.Compiler.Error.{Result, ok, CompilationError}
use rwasm.Compiler.SegmentBuilder.{
  SegmentBuilder, Sections, lookup, add_global_variable, add_memory_pages, emit_table_segment,
  add_active_memory, add_passive_memory, add_active_elements, add_passive_elements,
}

-- A module is read by such steps.
pub data Step : SegmentBuilder → SegmentBuilder → Type 0 where
  global_variable :
      {b b' : SegmentBuilder} (i : ℕ) (ty : ValType) (v : ℕ)
      → add_global_variable i ty v b ≡ ok b'
      → Step b b'
  memory_pages :
      {b b' : SegmentBuilder} (initial max_pages : ℕ)
      → add_memory_pages initial max_pages b ≡ ok b'
      → Step b b'
  table : {b : SegmentBuilder} (i initial : ℕ) → Step b (emit_table_segment i initial b)
  active_memory :
      {b : SegmentBuilder} (i offset : ℕ) (bytes : List ℕ)
      → Step b (add_active_memory i offset bytes b)
  passive_memory :
      {b : SegmentBuilder} (i : ℕ) (bytes : List ℕ) → Step b (add_passive_memory i bytes b)
  active_elements :
      {b : SegmentBuilder} (i offset t : ℕ) (elements : List ℕ)
      → Step b (add_active_elements i offset t elements b)
  passive_elements :
      {b : SegmentBuilder} (i : ℕ) (elements : List ℕ) → Step b (add_passive_elements i elements b)

pub data Steps : SegmentBuilder → SegmentBuilder → Type 0 where
  stop : {b : SegmentBuilder} → Steps b b
  then : {b b' c : SegmentBuilder} → Step b b' → Steps b' c → Steps b c

-- No step of them adds a data segment with the index `i`.
abbrev Other : ℕ → {b b' : SegmentBuilder} → Step b b' → Type 0
Other i (Step.active_memory j offset bytes) = j ≢ i
Other i (Step.passive_memory j bytes) = j ≢ i
Other i _ = Unit

abbrev pub Others : ℕ → {b c : SegmentBuilder} → Steps b c → Type 0
Others i Steps.stop = Unit
Others i (Steps.then s rest) = Other i s × Others i rest

-- The data of a segment, and where it is found.
pub record Kept (i : ℕ) (bytes : List ℕ) (b : SegmentBuilder) : Type 0 where
  pub pre : List ℕ
  pub post : List ℕ
  pub found : lookup i b.memory_sections ≡ some (length pre, length bytes)
  pub stored : b.global_memory_section ≡ pre ++ (bytes ++ post)

lookup-other :
    (i j : ℕ) (section : ℕ × ℕ) (sections : Sections)
    → j ≢ i
    → lookup i ((j, section) ∷ sections) ≡ lookup i sections
unfolding lookup
lookup-other i j section sections p = elim (Bool-cases (j == i)) [
  | inl e ↦ absurd (p ((==_iff j i).0 e))
  | inr e ↦ rw e refl
]

lookup-same :
    (i : ℕ) (section : ℕ × ℕ) (sections : Sections)
    → lookup i ((i, section) ∷ sections) ≡ some section
unfolding lookup
lookup-same i section sections = let e : (i == i) ≡ true = (==_iff i i).1 refl in rw e refl

module _ {i : ℕ} {bytes : List ℕ} {b : SegmentBuilder} (k : Kept i bytes b) where
  -- Data that is appended, and a section under another index.
  appended :
      (c : SegmentBuilder) (more : List ℕ)
      → c.global_memory_section ≡ b.global_memory_section ++ more
      → lookup i c.memory_sections ≡ lookup i b.memory_sections
      → Kept i bytes c
  appended c more e same = record {
    pre = k.pre;
    post = k.post ++ more;
    found = same ∙ k.found;
    stored =
        e
        ∙ (ap (λ l. l ++ more) k.stored
            ∙ (append_assoc k.pre (bytes ++ k.post) more
                ∙ ap (λ l. k.pre ++ l) (append_assoc bytes k.post more)));
  }

  untouched :
      (c : SegmentBuilder)
      → c.global_memory_section ≡ b.global_memory_section
      → c.memory_sections ≡ b.memory_sections
      → Kept i bytes c
  untouched c e same =
      appended c [] (e ∙ sym (append-nil b.global_memory_section)) (ap (lookup i) same)

abbrev built : SegmentBuilder → Result CompilationError SegmentBuilder
built b = ok b

ok_inv : {a b : SegmentBuilder} → built a ≡ built b → a ≡ b
ok_inv e = cc

global_variable-same :
    (i : ℕ) (ty : ValType) (v : ℕ) (b : SegmentBuilder) {b' : SegmentBuilder}
    → add_global_variable i ty v b ≡ ok b'
    → (b'.global_memory_section ≡ b.global_memory_section)
      × (b'.memory_sections ≡ b.memory_sections)
unfolding add_global_variable
global_variable-same i ValType.i32 v b {b'} h =
    let e = ok_inv h in
    (ap (λ b. b.global_memory_section) (sym e), ap (λ b. b.memory_sections) (sym e))
global_variable-same i ValType.i64 v b {b'} h =
    let e = ok_inv h in
    (ap (λ b. b.global_memory_section) (sym e), ap (λ b. b.memory_sections) (sym e))
global_variable-same i ValType.f32 v b {b'} h =
    let e = ok_inv h in
    (ap (λ b. b.global_memory_section) (sym e), ap (λ b. b.memory_sections) (sym e))
global_variable-same i ValType.f64 v b {b'} h =
    let e = ok_inv h in
    (ap (λ b. b.global_memory_section) (sym e), ap (λ b. b.memory_sections) (sym e))
global_variable-same i ValType.func_ref v b {b'} h =
    let e = ok_inv h in
    (ap (λ b. b.global_memory_section) (sym e), ap (λ b. b.memory_sections) (sym e))
global_variable-same i ValType.extern_ref v b {b'} h =
    let e = ok_inv h in
    (ap (λ b. b.global_memory_section) (sym e), ap (λ b. b.memory_sections) (sym e))
global_variable-same i ValType.v128 v b h = absurd cc

memory_pages-same :
    (initial max_pages : ℕ) (b : SegmentBuilder) {b' : SegmentBuilder}
    → add_memory_pages initial max_pages b ≡ ok b'
    → (b'.global_memory_section ≡ b.global_memory_section)
      × (b'.memory_sections ≡ b.memory_sections)
unfolding add_memory_pages
memory_pages-same initial max_pages b {b'} h =
    elim (Bool-cases (leb max_pages (min (b.total_allocated_pages + initial) (2 ^ 32 - 1)))) [
      | inl e ↦ let h' = rw e at h in absurd cc
      | inr e ↦
          let e' = ok_inv (rw e at h) in
          (ap (λ b. b.global_memory_section) (sym e'), ap (λ b. b.memory_sections) (sym e'))
    ]

Kept-Step :
    {i : ℕ} {bytes : List ℕ} {b b' : SegmentBuilder} (s : Step b b')
    → Other i s
    → Kept i bytes b
    → Kept i bytes b'
unfolding emit_table_segment add_active_memory add_passive_memory add_active_elements
    add_passive_elements
Kept-Step {b = b} {b' = b'} (Step.global_variable j ty v e) o k =
    let (p, q) = global_variable-same j ty v b e in untouched k b' p q
Kept-Step {b = b} {b' = b'} (Step.memory_pages initial max_pages e) o k =
    let (p, q) = memory_pages-same initial max_pages b e in untouched k b' p q
Kept-Step (Step.table j initial) o k = untouched k _ refl refl
Kept-Step {i} {b = b} (Step.active_memory j offset bytes) o k =
    appended k _ bytes refl (lookup-other i j (offset, length bytes % 2 ^ 32) b.memory_sections o)
Kept-Step {i} {b = b} (Step.passive_memory j bytes) o k = appended k _ bytes refl (
    lookup-other i j (length b.global_memory_section % 2 ^ 32, length bytes % 2 ^ 32)
      b.memory_sections o)
Kept-Step (Step.active_elements j offset t elements) o k = untouched k _ refl refl
Kept-Step (Step.passive_elements j elements) o k = untouched k _ refl refl

Kept-Steps :
    {i : ℕ} {bytes : List ℕ} {b c : SegmentBuilder} (s : Steps b c)
    → Others i s
    → Kept i bytes b
    → Kept i bytes c
Kept-Steps Steps.stop o k = k
Kept-Steps (Steps.then s rest) (o, os) k = Kept-Steps rest os (Kept-Step s o k)

exact :
    (offset size : ℕ)
    → offset + size < 2 ^ 32
    → ◌≡◌ {A = ℕ × ℕ} (offset % 2 ^ 32, size % 2 ^ 32) (offset, size)
exact offset size p = ground arith

-- The bytes of a passive data segment, if the section's size stays below 2 ^ 32 with them, are found
-- under its index, at the offset and with the length that the builder noted, after whatever steps
-- that add no segment with the same index.
pub add_passive_memory-Kept :
    (i : ℕ) (bytes : List ℕ) (b : SegmentBuilder) {c : SegmentBuilder}
    (s : Steps (add_passive_memory i bytes b) c)
    → length b.global_memory_section + length bytes < 2 ^ 32
    → Others i s
    → Kept i bytes c
unfolding add_passive_memory
add_passive_memory-Kept i bytes b s p o = Kept-Steps s o (record {
  pre = b.global_memory_section;
  post = [];
  found =
      lookup-same i (length b.global_memory_section % 2 ^ 32, length bytes % 2 ^ 32)
        b.memory_sections
      ∙ ap some (exact (length b.global_memory_section) (length bytes) p);
  stored = ap (λ l. b.global_memory_section ++ l) (sym (append-nil bytes));
})
