-- ===== src/Storage/Partition.antt =====
-- src/efi/protocols/block_io.rs: which context a protocol has, and which sectors a read is of.
use crab_efi.Prelude.{
  ℕ, suc, Bool, false, Option, none, some, List, [], ◌∷◌, ◌==◌, ◌≡◌, refl, sym, ap, ◌∙◌, ◌≢◌,
  if◌then◌else◌, get_or, set, Bool-cases, Option-cases, arith, inl, inr, subst,
}
use crab_efi.Storage.{free_slot}
use crab_efi.Storage.BlockIo.{
  BlockIoContext, BlockIo, is_protocol, find_context_index, context_at, create_block_io_internal,
}

-- The context that a protocol has.
abbrev pub context_of : BlockIo → ℕ → Option BlockIoContext
context_of io protocol = context_at io (find_context_index io.protocols protocol)

abbrev pub at_index : List (Option BlockIoContext) → Option ℕ → Option BlockIoContext
at_index cs none = none
at_index cs (some i) = get_or cs i none

at_index_next :
    (c : Option BlockIoContext) (cs : List (Option BlockIoContext)) (o : Option ℕ)
    → at_index (c ∷ cs) (elim o [ none ↦ none | some i ↦ some (suc i) ]) ≡ at_index cs o
at_index_next c cs none = refl
at_index_next c cs (some i) = refl

-- The arrays have their free slots at the same places.
abbrev pub Paired : List (Option ℕ) → List (Option BlockIoContext) → Type 0
Paired [] [] = Unit
Paired (none ∷ ps) (none ∷ cs) = Paired ps cs
Paired (some p ∷ ps) (some c ∷ cs) = Paired ps cs
Paired [] (c ∷ cs) = ⊥
Paired (p ∷ ps) [] = ⊥
Paired (none ∷ ps) (some c ∷ cs) = ⊥
Paired (some p ∷ ps) (none ∷ cs) = ⊥

pub found : List (Option ℕ) → List (Option BlockIoContext) → ℕ → Option BlockIoContext
found [] cs protocol = none
found (p ∷ ps) [] protocol = none
found (p ∷ ps) (c ∷ cs) protocol =
    let rest = found ps cs protocol in if is_protocol p protocol then c else rest

at_index-found :
    (ps : List (Option ℕ)) (cs : List (Option BlockIoContext)) (protocol : ℕ)
    → Paired ps cs
    → at_index cs (find_context_index ps protocol) ≡ found ps cs protocol
unfolding find_context_index found
at_index-found [] [] protocol h = refl
at_index-found (none ∷ ps) (none ∷ cs) protocol h =
    at_index_next none cs (find_context_index ps protocol) ∙ at_index-found ps cs protocol h
at_index-found (some p ∷ ps) (some c ∷ cs) protocol h = elim (Bool-cases (p == protocol)) [
  | inl e ↦ rw e refl
  | inr e ↦
      rw e (
        at_index_next (some c) cs (find_context_index ps protocol)
        ∙ at_index-found ps cs protocol h)
]
at_index-found (none ∷ ps) (some c ∷ cs) protocol h = elim h [ ]
at_index-found (some p ∷ ps) (none ∷ cs) protocol h = elim h [ ]
at_index-found (p ∷ ps) [] protocol h = elim h [ ]
at_index-found [] (c ∷ cs) protocol h = elim h [ ]

context_of-found :
    (io : BlockIo) (protocol : ℕ)
    → Paired io.protocols io.contexts
    → context_of io protocol ≡ found io.protocols io.contexts protocol
context_of-found io protocol h =
    same (find_context_index io.protocols protocol)
    ∙ at_index-found io.protocols io.contexts protocol h
  where
    same : (o : Option ℕ) → context_at io o ≡ at_index io.contexts o
    same none = refl
    same (some i) = refl

-- No protocol in use has the address.
abbrev pub IsFresh : List (Option ℕ) → ℕ → Type 0
IsFresh [] protocol = Unit
IsFresh (none ∷ ps) protocol = IsFresh ps protocol
IsFresh (some p ∷ ps) protocol = ((p == protocol) ≡ false) × IsFresh ps protocol

found-set :
    (ps : List (Option ℕ)) (cs : List (Option BlockIoContext)) (ctx : BlockIoContext)
    (i new other : ℕ)
    → Paired ps cs
    → IsFresh ps new
    → free_slot cs ≡ some i
    → found (set ps i (some new)) (set cs i (some ctx)) other
      ≡ (if new == other then some ctx else found ps cs other)
unfolding found free_slot
found-set [] [] ctx i new other h fresh e = cc
found-set [] (c ∷ cs) ctx i new other h fresh e = elim h [ ]
found-set (p ∷ ps) [] ctx i new other h fresh e = elim h [ ]
found-set (none ∷ ps) (some c ∷ cs) ctx i new other h fresh e = elim h [ ]
found-set (some p ∷ ps) (none ∷ cs) ctx i new other h fresh e = elim h [ ]
found-set (none ∷ ps) (none ∷ cs) ctx i new other h fresh e =
    let first : 0 ≡ i = cc in rw (← first) refl
found-set (some p ∷ ps) (some c ∷ cs) ctx i new other h fresh e =
    elim (Option-cases (free_slot cs)) [
      | inl full ↦ let no : none ≡ some i = rw full at e in cc
      | inr (j, free) ↦
          let next : some (suc j) ≡ some i = rw free at e in
          let at : suc j ≡ i = cc in
          let rest = found-set ps cs ctx j new other h fresh.1 free in
          rw (← at) (skip (found (set ps j (some new)) (set cs j (some ctx)) other) rest)
    ]
  where
    skip :
        (f : Option BlockIoContext)
        → f ≡ (if new == other then some ctx else found ps cs other)
        → (if p == other then some c else f)
          ≡ (if new == other then some ctx else if p == other then some c else found ps cs other)
    skip f g = let no = fresh.0 in ground arith

Paired-set :
    (ps : List (Option ℕ)) (cs : List (Option BlockIoContext)) (ctx : BlockIoContext) (i new : ℕ)
    → Paired ps cs
    → free_slot cs ≡ some i
    → Paired (set ps i (some new)) (set cs i (some ctx))
unfolding free_slot
Paired-set [] [] ctx i new h e = h
Paired-set [] (c ∷ cs) ctx i new h e = elim h [ ]
Paired-set (p ∷ ps) [] ctx i new h e = elim h [ ]
Paired-set (none ∷ ps) (some c ∷ cs) ctx i new h e = elim h [ ]
Paired-set (some p ∷ ps) (none ∷ cs) ctx i new h e = elim h [ ]
Paired-set (none ∷ ps) (none ∷ cs) ctx i new h e =
    let first : 0 ≡ i = cc in
    subst (λ j. Paired (set (none ∷ ps) j (some new)) (set (none ∷ cs) j (some ctx))) first h
Paired-set (some p ∷ ps) (some c ∷ cs) ctx i new h e = elim (Option-cases (free_slot cs)) [
  | inl full ↦ let no : none ≡ some i = rw full at e in cc
  | inr (j, free) ↦
      let next : some (suc j) ≡ some i = rw free at e in
      let at : suc j ≡ i = cc in
      subst (λ k. Paired (set (some p ∷ ps) k (some new)) (set (some c ∷ cs) k (some ctx))) at
        (Paired-set ps cs ctx j new h free)
]

-- With paired arrays, a free slot, and addresses of the pool that are not null, the second of
-- which no protocol has: a new protocol is made at that address and has its context, every other
-- protocol keeps its own, and the arrays stay paired.
pub create_block_io_lem :
    (io : BlockIo) (ctx : BlockIoContext) (is_partition : Bool) (media_ptr protocol_ptr : ℕ) {i : ℕ}
    → Paired io.protocols io.contexts
    → free_slot io.contexts ≡ some i
    → media_ptr ≢ 0
    → protocol_ptr ≢ 0
    → IsFresh io.protocols protocol_ptr
    → let made = create_block_io_internal io ctx is_partition media_ptr protocol_ptr in
      (made.1 ≡ protocol_ptr)
      × Paired made.0.protocols made.0.contexts
      × ((other : ℕ)
          → context_of made.0 other
            ≡ (if protocol_ptr == other then some ctx else context_of io other))
unfolding create_block_io_internal
create_block_io_lem io ctx is_partition media_ptr protocol_ptr {i = i} h free m p fresh =
    let ok_media : (media_ptr == 0) ≡ false = ground arith in
    let ok_protocol : (protocol_ptr == 0) ≡ false = ground arith in
    let paired = Paired-set io.protocols io.contexts ctx i protocol_ptr h free in
    let io' : BlockIo = record {
      contexts = set io.contexts i (some ctx);
      protocols = set io.protocols i (some protocol_ptr);
    } in
    rw (free, ok_media, ok_protocol)
      (
        refl,
        paired,
        λ other.
            context_of-found io' other paired
            ∙ found-set io.protocols io.contexts ctx i protocol_ptr other h fresh free
            ∙ ap (λ o. if protocol_ptr == other then some ctx else o)
                (sym (context_of-found io other h)),
      )
