-- ===== src/Mailboxes/Roles.antt =====
-- internal/transport/mailbox_resolution.go: the roles of mailboxes with their names in English and
-- German, in UTF-8.
use mail_cli.Common.{List, [], ◌∷◌, Bytes}

pub data MailboxRole : Type 0 where
  sent trash junk drafts archive : MailboxRole

abbrev pub mailbox_role_order : List MailboxRole
mailbox_role_order = sent ∷ trash ∷ junk ∷ drafts ∷ archive ∷ []

-- \Sent, \Trash, \Junk, \Drafts and \Archive.
abbrev pub mailbox_role_flag : MailboxRole → Bytes
mailbox_role_flag sent = 92 ∷ 83 ∷ 101 ∷ 110 ∷ 116 ∷ []
mailbox_role_flag trash = 92 ∷ 84 ∷ 114 ∷ 97 ∷ 115 ∷ 104 ∷ []
mailbox_role_flag junk = 92 ∷ 74 ∷ 117 ∷ 110 ∷ 107 ∷ []
mailbox_role_flag drafts = 92 ∷ 68 ∷ 114 ∷ 97 ∷ 102 ∷ 116 ∷ 115 ∷ []
mailbox_role_flag archive = 92 ∷ 65 ∷ 114 ∷ 99 ∷ 104 ∷ 105 ∷ 118 ∷ 101 ∷ []

-- sent: sent, sent mail, sent messages, gesendet, gesendete elemente.
-- trash: trash, bin, deleted, deleted messages, papierkorb, gelöschte elemente.
-- junk: junk, spam.
-- drafts: drafts, entwürfe.
-- archive: archive, archiv.
abbrev pub mailbox_role_aliases : MailboxRole → List Bytes
mailbox_role_aliases sent =
    (115 ∷ 101 ∷ 110 ∷ 116 ∷ [])
    ∷ (115 ∷ 101 ∷ 110 ∷ 116 ∷ 32 ∷ 109 ∷ 97 ∷ 105 ∷ 108 ∷ [])
    ∷ (115 ∷ 101 ∷ 110 ∷ 116 ∷ 32 ∷ 109 ∷ 101 ∷ 115 ∷ 115 ∷ 97 ∷ 103 ∷ 101 ∷ 115 ∷ [])
    ∷ (103 ∷ 101 ∷ 115 ∷ 101 ∷ 110 ∷ 100 ∷ 101 ∷ 116 ∷ [])
    ∷ (103 ∷ 101 ∷ 115 ∷ 101 ∷ 110 ∷ 100 ∷ 101 ∷ 116 ∷ 101 ∷ 32 ∷ 101 ∷ 108 ∷ 101 ∷ 109 ∷ 101 ∷ 110
        ∷ 116 ∷ 101 ∷ [])
    ∷ []
mailbox_role_aliases trash =
    (116 ∷ 114 ∷ 97 ∷ 115 ∷ 104 ∷ [])
    ∷ (98 ∷ 105 ∷ 110 ∷ [])
    ∷ (100 ∷ 101 ∷ 108 ∷ 101 ∷ 116 ∷ 101 ∷ 100 ∷ [])
    ∷ (100 ∷ 101 ∷ 108 ∷ 101 ∷ 116 ∷ 101 ∷ 100 ∷ 32 ∷ 109 ∷ 101 ∷ 115 ∷ 115 ∷ 97 ∷ 103 ∷ 101 ∷ 115
        ∷ [])
    ∷ (112 ∷ 97 ∷ 112 ∷ 105 ∷ 101 ∷ 114 ∷ 107 ∷ 111 ∷ 114 ∷ 98 ∷ [])
    ∷ (103 ∷ 101 ∷ 108 ∷ 195 ∷ 182 ∷ 115 ∷ 99 ∷ 104 ∷ 116 ∷ 101 ∷ 32 ∷ 101 ∷ 108 ∷ 101 ∷ 109 ∷ 101
        ∷ 110 ∷ 116 ∷ 101 ∷ [])
    ∷ []
mailbox_role_aliases junk = (106 ∷ 117 ∷ 110 ∷ 107 ∷ []) ∷ (115 ∷ 112 ∷ 97 ∷ 109 ∷ []) ∷ []
mailbox_role_aliases drafts =
    (100 ∷ 114 ∷ 97 ∷ 102 ∷ 116 ∷ 115 ∷ [])
    ∷ (101 ∷ 110 ∷ 116 ∷ 119 ∷ 195 ∷ 188 ∷ 114 ∷ 102 ∷ 101 ∷ [])
    ∷ []
mailbox_role_aliases archive =
    (97 ∷ 114 ∷ 99 ∷ 104 ∷ 105 ∷ 118 ∷ 101 ∷ []) ∷ (97 ∷ 114 ∷ 99 ∷ 104 ∷ 105 ∷ 118 ∷ []) ∷ []

-- sent: Sent, Sent Mail, Sent Messages, Gesendet, Gesendete Elemente, [Gmail]/Sent Mail.
-- trash: Trash, Bin, Deleted, Deleted Messages, [Gmail]/Trash, [Gmail]/Papierkorb, Papierkorb, Gelöschte Elemente, INBOX.Trash.
-- junk: Junk, Spam, [Gmail]/Spam.
-- drafts: Drafts, Entwürfe, [Gmail]/Drafts.
-- archive: Archive, Archiv, [Gmail]/All Mail.
abbrev pub mailbox_role_fallbacks : MailboxRole → List Bytes
mailbox_role_fallbacks sent =
    (83 ∷ 101 ∷ 110 ∷ 116 ∷ [])
    ∷ (83 ∷ 101 ∷ 110 ∷ 116 ∷ 32 ∷ 77 ∷ 97 ∷ 105 ∷ 108 ∷ [])
    ∷ (83 ∷ 101 ∷ 110 ∷ 116 ∷ 32 ∷ 77 ∷ 101 ∷ 115 ∷ 115 ∷ 97 ∷ 103 ∷ 101 ∷ 115 ∷ [])
    ∷ (71 ∷ 101 ∷ 115 ∷ 101 ∷ 110 ∷ 100 ∷ 101 ∷ 116 ∷ [])
    ∷ (71 ∷ 101 ∷ 115 ∷ 101 ∷ 110 ∷ 100 ∷ 101 ∷ 116 ∷ 101 ∷ 32 ∷ 69 ∷ 108 ∷ 101 ∷ 109 ∷ 101 ∷ 110
        ∷ 116 ∷ 101 ∷ [])
    ∷ (91 ∷ 71 ∷ 109 ∷ 97 ∷ 105 ∷ 108 ∷ 93 ∷ 47 ∷ 83 ∷ 101 ∷ 110 ∷ 116 ∷ 32 ∷ 77 ∷ 97 ∷ 105 ∷ 108
        ∷ [])
    ∷ []
mailbox_role_fallbacks trash =
    (84 ∷ 114 ∷ 97 ∷ 115 ∷ 104 ∷ [])
    ∷ (66 ∷ 105 ∷ 110 ∷ [])
    ∷ (68 ∷ 101 ∷ 108 ∷ 101 ∷ 116 ∷ 101 ∷ 100 ∷ [])
    ∷ (68 ∷ 101 ∷ 108 ∷ 101 ∷ 116 ∷ 101 ∷ 100 ∷ 32 ∷ 77 ∷ 101 ∷ 115 ∷ 115 ∷ 97 ∷ 103 ∷ 101 ∷ 115
        ∷ [])
    ∷ (91 ∷ 71 ∷ 109 ∷ 97 ∷ 105 ∷ 108 ∷ 93 ∷ 47 ∷ 84 ∷ 114 ∷ 97 ∷ 115 ∷ 104 ∷ [])
    ∷ (91 ∷ 71 ∷ 109 ∷ 97 ∷ 105 ∷ 108 ∷ 93 ∷ 47 ∷ 80 ∷ 97 ∷ 112 ∷ 105 ∷ 101 ∷ 114 ∷ 107 ∷ 111 ∷ 114
        ∷ 98 ∷ [])
    ∷ (80 ∷ 97 ∷ 112 ∷ 105 ∷ 101 ∷ 114 ∷ 107 ∷ 111 ∷ 114 ∷ 98 ∷ [])
    ∷ (71 ∷ 101 ∷ 108 ∷ 195 ∷ 182 ∷ 115 ∷ 99 ∷ 104 ∷ 116 ∷ 101 ∷ 32 ∷ 69 ∷ 108 ∷ 101 ∷ 109 ∷ 101
        ∷ 110 ∷ 116 ∷ 101 ∷ [])
    ∷ (73 ∷ 78 ∷ 66 ∷ 79 ∷ 88 ∷ 46 ∷ 84 ∷ 114 ∷ 97 ∷ 115 ∷ 104 ∷ [])
    ∷ []
mailbox_role_fallbacks junk =
    (74 ∷ 117 ∷ 110 ∷ 107 ∷ [])
    ∷ (83 ∷ 112 ∷ 97 ∷ 109 ∷ [])
    ∷ (91 ∷ 71 ∷ 109 ∷ 97 ∷ 105 ∷ 108 ∷ 93 ∷ 47 ∷ 83 ∷ 112 ∷ 97 ∷ 109 ∷ [])
    ∷ []
mailbox_role_fallbacks drafts =
    (68 ∷ 114 ∷ 97 ∷ 102 ∷ 116 ∷ 115 ∷ [])
    ∷ (69 ∷ 110 ∷ 116 ∷ 119 ∷ 195 ∷ 188 ∷ 114 ∷ 102 ∷ 101 ∷ [])
    ∷ (91 ∷ 71 ∷ 109 ∷ 97 ∷ 105 ∷ 108 ∷ 93 ∷ 47 ∷ 68 ∷ 114 ∷ 97 ∷ 102 ∷ 116 ∷ 115 ∷ [])
    ∷ []
mailbox_role_fallbacks archive =
    (65 ∷ 114 ∷ 99 ∷ 104 ∷ 105 ∷ 118 ∷ 101 ∷ [])
    ∷ (65 ∷ 114 ∷ 99 ∷ 104 ∷ 105 ∷ 118 ∷ [])
    ∷ (91 ∷ 71 ∷ 109 ∷ 97 ∷ 105 ∷ 108 ∷ 93 ∷ 47 ∷ 65 ∷ 108 ∷ 108 ∷ 32 ∷ 77 ∷ 97 ∷ 105 ∷ 108 ∷ [])
    ∷ []

-- INBOX
abbrev pub inbox_name : Bytes
inbox_name = 73 ∷ 78 ∷ 66 ∷ 79 ∷ 88 ∷ []

-- [Gmail]
abbrev pub gmail_name : Bytes
gmail_name = 91 ∷ 71 ∷ 109 ∷ 97 ∷ 105 ∷ 108 ∷ 93 ∷ []
