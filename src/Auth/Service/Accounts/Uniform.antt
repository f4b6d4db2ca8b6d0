-- ===== src/Auth/Service/Accounts/Uniform.antt =====
-- The service does not tell whether an email has an account.
