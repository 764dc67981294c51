-- ===== src/Cregserv/Sections.antt =====
-- cregserv.c, cregserv.h: the sections that REGISTRA knows, in the order of its tests.
use euskal_irc_services_bdd.Base.{ℕ, Option, none, some, List, [], ◌∷◌, if◌then◌else◌, Bytes, codes}
use euskal_irc_services_bdd.Chars.{stricmp_eq}

-- The field that a section is stored in, and its flag
pub data Section : Type 0 where
  topic geo : ℕ → Section

abbrev pub sections : List (Bytes × Section)
sections =
    (codes "SOC", topic 0x40)
    ∷ (codes "INF", topic 0x800)
    ∷ (codes "CIE", topic 0x80)
    ∷ (codes "AYU", topic 0x4)
    ∷ (codes "ADU", topic 0x80000)
    ∷ (codes "PRO", topic 0x2)
    ∷ (codes "CUH", topic 0x20)
    ∷ (codes "DEP", topic 0x200)
    ∷ (codes "LCT", topic 0x2000)
    ∷ (codes "MUS", topic 0x4000)
    ∷ (codes "OCI", topic 0x8000)
    ∷ (codes "PAI", topic 0x20000)
    ∷ (codes "PRF", topic 0x40000)
    ∷ (codes "AMO", topic 0x100000)
    ∷ (codes "SEX", topic 0x200000)
    ∷ (codes "RAD", topic 0x800000)
    ∷ (codes "JUE", topic 0x10)
    ∷ (codes "AND", geo 0x2)
    ∷ (codes "ARA", geo 0x4)
    ∷ (codes "AST", geo 0x10)
    ∷ (codes "BAL", geo 0x20)
    ∷ (codes "ICA", geo 0x40)
    ∷ (codes "CAN", geo 0x80)
    ∷ (codes "CAT", geo 0x200)
    ∷ (codes "CAM", geo 0x800)
    ∷ (codes "CAL", geo 0x2000)
    ∷ (codes "CEM", geo 0x4000)
    ∷ (codes "EUS", geo 0x8000)
    ∷ (codes "EXT", geo 0x20000)
    ∷ (codes "GAE", geo 0x40000)
    ∷ (codes "LRI", geo 0x80000)
    ∷ (codes "MAD", geo 0x100000)
    ∷ (codes "MUR", geo 0x200000)
    ∷ (codes "NAV", geo 0x800000)
    ∷ (codes "VAL", geo 0x2000000)
    ∷ []

unfoldable pub section_in : Bytes → List (Bytes × Section) → Option Section
unfolding stricmp_eq
section_in name [] = none
section_in name ((known, section) ∷ l) =
    let rest = section_in name l in if stricmp_eq name known then some section else rest

unfoldable pub section_of : Bytes → Option Section
unfolding section_in
section_of name = section_in name sections
