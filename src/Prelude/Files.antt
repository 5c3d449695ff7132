-- ===== src/Prelude/Files.antt =====
-- A file system as the contents of its files, by their paths.
use mathlib.Core.Path.{◌≡◌, refl}
use mathlib.Core.Bool.{Bool, true, false}
use mathlib.Core.Option.{Option, none, some}
use mathlib.Core.List.{[]}
use pinetd.Prelude.Tests.{if◌then◌else◌}
use pinetd.Prelude.ByteArray.{Bytes, bytes_eq}
use pinetd.Prelude.Containers.{Dict, find, put, find-put, remove, find-remove}

-- What a file holds, nothing if it is not there.
abbrev pub content_or_none : Option Bytes → Bytes
content_or_none none = []
content_or_none (some c) = c

unfoldable pub content : Bytes → Dict Bytes → Bytes
unfolding find
content path files = content_or_none (find path files)

content_if :
    (b : Bool) (v : Bytes) (o : Option Bytes)
    → content_or_none (if b then some v else o) ≡ (if b then v else content_or_none o)
content_if true v o = refl
content_if false v o = refl

pub content-put :
    (k j v : Bytes) (files : Dict Bytes)
    → content j (put k v files) ≡ (if bytes_eq k j then v else content j files)
unfolding content
content-put k j v files = rw (find-put k j v files) (content_if (bytes_eq k j) v (find j files))

content_none :
    (b : Bool) (o : Option Bytes)
    → content_or_none (if b then none else o) ≡ (if b then [] else content_or_none o)
content_none true o = refl
content_none false o = refl

pub content-remove :
    (k j : Bytes) (files : Dict Bytes)
    → content j (remove k files) ≡ (if bytes_eq k j then [] else content j files)
unfolding content
content-remove k j files = rw (find-remove k j files) (content_none (bytes_eq k j) (find j files))
