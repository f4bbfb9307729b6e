-- ===== src/Strings/Tests.antt =====
-- Concrete calls of kernel/string.c.
use mini_os_design.Common.{◌≡◌, some, ◌==◌, if◌then◌else◌, refl}
use mini_os_design.Strings.{
  Bytes, copy_down, memmove, memset, strncpy, copy_string, safestrcpy, strlen,
}

-- The byte at `i` is `i`.
abbrev counting : Bytes
counting i = i

abbrev hello : Bytes
hello i = if i == 5 then 0 else 104

memmove_overlap : memmove counting 12 10 4 14 ≡ 12
unfolding memmove copy_down
memmove_overlap = refl

strlen_run : strlen 9 hello 2 ≡ some 3
unfolding strlen
strlen_run = refl

safestrcpy_cuts : safestrcpy hello 100 0 3 102 ≡ 0
unfolding safestrcpy copy_string
safestrcpy_cuts = refl

strncpy_pads : strncpy hello 100 4 6 105 ≡ 0
unfolding strncpy memset
strncpy_pads = refl
