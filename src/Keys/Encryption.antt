-- ===== src/Keys/Encryption.antt =====
-- src/services/encryption-service.ts: credentials under the data encryption key. Encrypted data is
-- hexadecimal text: initialisation vector, tag, cipher text. The logger's calls are left out.
pub mod RoundTrip
use zero_knowledge_aggregato.Base.{
  [], ℕ, ◌+◌, ◌*◌, String, ◌++◌, Bool, Option, none, some, List, take, drop, Act, Result, ok, err,
  Error, because, pure, throw, lift, catch, ◌>>=◌, ◌>>◌,
}
use zero_knowledge_aggregato.Prisma.{Table}
use zero_knowledge_aggregato.Keys.Crypto.{Bytes, Text, Crypto, codes}
use zero_knowledge_aggregato.Keys.Repository.{WrappedDek}
use zero_knowledge_aggregato.Keys.Management.{Surroundings, KeyState, get_current_dek}

abbrev pub iv_length : ℕ
iv_length = 16

abbrev pub tag_length : ℕ
tag_length = 16

-- `passphrase || ''`
abbrev pub or_empty : Option Text → Text
or_empty none = []
or_empty (some s) = s

module _ (crypto : Crypto) (table : Table WrappedDek) where
  open table use {Db}
  open crypto use {seal, unseal, utf8, from_utf8, hex, from_hex}

  unfoldable pub get_key : Surroundings → Act (KeyState Db) Bytes
  get_key env =
      catch (get_current_dek crypto table env)
        (λ e. throw (because "Cannot get encryption key - AMD SEV-SNP required" e))

  -- `iv` is what the random generator gives for this text.
  unfoldable pub encrypt : Surroundings → Bytes → Text → Act (KeyState Db) Text
  unfolding get_key
  encrypt env iv text =
      catch
        (do
          key ← get_key env
          sealed ← lift (seal key iv (utf8 text))
          pure (hex iv ++ (hex sealed.1 ++ hex sealed.0)))
        (λ e. throw (because "Encryption failed" e))

  unfoldable pub decrypt : Surroundings → Text → Act (KeyState Db) Text
  unfolding get_key
  decrypt env encrypted_data =
      catch
        (do
          key ← get_key env
          let iv = from_hex (take (iv_length * 2) encrypted_data)
          let tag = from_hex (take (tag_length * 2) (drop (iv_length * 2) encrypted_data))
          let encrypted = from_hex (drop ((iv_length + tag_length) * 2) encrypted_data)
          plain ← lift (unseal key iv encrypted tag)
          pure (from_utf8 plain))
        (λ e. throw (because "Decryption failed" e))

module _ (crypto : Crypto) where
  open crypto use {sha256, utf8, hex_string}

  unfoldable pub hash : Text → String
  hash text = hex_string (sha256 (utf8 text))

  -- Both colons are put between the parts as they are.
  unfoldable pub create_credentials_hash : Text → Text → Option Text → String
  unfolding hash
  create_credentials_hash api_key api_secret passphrase =
      hash (api_key ++ (codes ":" ++ (api_secret ++ (codes ":" ++ or_empty passphrase))))
