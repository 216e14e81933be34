-- ===== src/Tl1/Block.antt =====
-- internal/sshsrv/tl1.go: the frames of TL1 responses. The time that `tl1Timestamp` reads from the
-- clock is an argument.
use rconfig_sim.Base.{Bytes, codes, crlf, List, [], ◌∷◌, ◌++◌}

abbrev pub concat : List Bytes → Bytes
concat [] = []
concat (p ∷ ps) = p ++ concat ps

-- `tl1BlockHeader`.
unfoldable pub block_header : Bytes → Bytes → Bytes → Bytes → Bytes
block_header stamp sid ctag code = concat (
    crlf
    ∷ codes "   "
    ∷ sid
    ∷ codes " "
    ∷ stamp
    ∷ crlf
    ∷ codes "M  "
    ∷ ctag
    ∷ codes " "
    ∷ code
    ∷ crlf
    ∷ [])

-- `tl1CompldHeader`.
unfoldable pub compld_header : Bytes → Bytes → Bytes → Bytes
compld_header stamp sid ctag = block_header stamp sid ctag (codes "COMPLD")

abbrev pub terminator : Bytes
terminator = b';' ∷ crlf

-- `tl1Block`.
unfoldable pub block : Bytes → Bytes → Bytes → Bytes → Bytes → Bytes
block stamp sid ctag code payload = block_header stamp sid ctag code ++ (payload ++ terminator)

-- `tl1Compld`.
unfoldable pub compld : Bytes → Bytes → Bytes → Bytes → Bytes
compld stamp sid ctag payload = compld_header stamp sid ctag ++ (payload ++ terminator)

-- `tl1Deny`.
unfoldable pub deny : Bytes → Bytes → Bytes → Bytes → Bytes
deny stamp sid ctag err_code = concat (
    crlf
    ∷ codes "   "
    ∷ sid
    ∷ codes " "
    ∷ stamp
    ∷ crlf
    ∷ codes "M  "
    ∷ ctag
    ∷ codes " DENY"
    ∷ crlf
    ∷ codes "   "
    ∷ err_code
    ∷ crlf
    ∷ terminator
    ∷ [])
