-- ===== src/Str/Versions.antt =====
-- src/str.c: the functions that choose between the two versions of KDL.
use ckdl.Prelude.{ℕ, Option, Bytes}
use ckdl.Grammar.{Version, version_1, version_2}
use ckdl.Str.Escape.{escape_v1, escape_v2}
use ckdl.Str.UnescapeV1.{unescape_v1}
use ckdl.Str.UnescapeV2.{unescape_v2_single_line}
use ckdl.Str.Multiline.{unescape_v2_multi_line}

-- `kdl_escape_v`
unfoldable pub escape_v : Version → Bytes → ℕ → Option Bytes
escape_v version_1 s mode = escape_v1 s mode
escape_v version_2 s mode = escape_v2 s mode

-- `kdl_unescape_v`
unfoldable pub unescape_v : Version → Bytes → Option Bytes
unescape_v version_1 s = unescape_v1 s
unescape_v version_2 s = unescape_v2_single_line s

-- `kdl_unescape_multi_line`
unfoldable pub unescape_multi_line : Version → Bytes → Option Bytes
unescape_multi_line version_1 s = unescape_v1 s
unescape_multi_line version_2 s = unescape_v2_multi_line s
