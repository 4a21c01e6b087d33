-- ===== src/Filter/Columns.antt =====
-- The users table's columns (FIELD_TO_COLUMN, JSONB_FIELDS, columnName of src/db/columns.ts).
use uam_backend.Prelude.{
  List, Text, text, Option, Bool, ◌∷◌, if◌then◌else◌, text_eq, [], some, ◌||◌, lookup,
}

unfoldable pub field_to_column : List (Text × Text)
field_to_column =
    (text "id", text "id")
    ∷ (text "email", text "email")
    ∷ (text "previousEmail", text "previous_email")
    ∷ (text "password", text "password")
    ∷ (text "displayName", text "display_name")
    ∷ (text "avatar", text "avatar")
    ∷ (text "bio", text "bio")
    ∷ (text "isEmailVerified", text "is_email_verified")
    ∷ (text "loginCount", text "login_count")
    ∷ (text "lastLogin", text "last_login")
    ∷ (text "emailVerificationToken", text "email_verification_token")
    ∷ (text "emailVerificationExpires", text "email_verification_expires")
    ∷ (text "passwordResetToken", text "password_reset_token")
    ∷ (text "passwordResetExpires", text "password_reset_expires")
    ∷ (text "provider", text "provider")
    ∷ (text "providerId", text "provider_id")
    ∷ (text "refreshTokens", text "refresh_tokens")
    ∷ (text "activeAccessJtis", text "active_access_jtis")
    ∷ (text "tokenVersion", text "token_version")
    ∷ (text "migrationExpiry", text "migration_expiry")
    ∷ (text "migrationToken", text "migration_token")
    ∷ (text "migrationTokenExpires", text "migration_token_expires")
    ∷ (text "newEmailPending", text "new_email_pending")
    ∷ (text "lastMigrationDate", text "last_migration_date")
    ∷ (text "currentEmailVerified", text "current_email_verified")
    ∷ (text "newEmailVerified", text "new_email_verified")
    ∷ (text "currentEmailToken", text "current_email_token")
    ∷ (text "newEmailToken", text "new_email_token")
    ∷ (text "lastMigrationEmailSent", text "last_migration_email_sent")
    ∷ (text "migrationHistory", text "migration_history")
    ∷ (text "createdAt", text "created_at")
    ∷ (text "updatedAt", text "updated_at")
    ∷ []

-- `none` is the exception "Unknown field".
unfoldable pub column_name : Text → Option Text
column_name field =
    if text_eq field (text "_id") then some (text "id") else lookup field field_to_column

unfoldable pub is_jsonb : Text → Bool
is_jsonb field =
    text_eq field (text "refreshTokens")
    || text_eq field (text "activeAccessJtis")
    || text_eq field (text "migrationHistory")
