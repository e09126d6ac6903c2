-- ===== src/Scanner/Token.antt =====
-- include/sysbvm/token.h: tokens.
use sysmel.Prelude.{ℕ}
use sysmel.Scanner.Convert.{Conversion, TokenValue}
use sysmel.Scanner.Cursor.{Cursor}

-- sysbvm_tokenKind_t
pub data TokenKind : Type 0 where
  character float identifier integer keyword multi_keyword operator string symbol : TokenKind
  lparent rparent lbracket rbracket lcbracket rcbracket : TokenKind
  less_than greater_than star : TokenKind
  colon colon_colon bar : TokenKind
  assignment semicolon comma dot ellipsis : TokenKind
  quote quasi_quote quasi_unquote splice : TokenKind
  byte_array_start dictionary_start literal_array_start : TokenKind
  error : TokenKind

-- What a branch of sysbvm_scanner_scanNextTokenInto hands to emitTokenForStateRange: the end of
-- the range, the kind and the conversion function. The range starts where the token does.
pub record Lexeme : Type 0 where
  pub stop : Cursor
  pub kind : TokenKind
  pub conversion : Conversion

-- sysbvm_token_t, with the indices of its source position.
pub record Token : Type 0 where
  pub kind : TokenKind
  pub start : ℕ
  pub stop : ℕ
  pub value : TokenValue
