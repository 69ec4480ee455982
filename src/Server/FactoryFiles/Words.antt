-- ===== src/Server/FactoryFiles/Words.antt =====
-- The words of remus/server/FactoryFileParser.cxx, as bytes.
use remus.Prelude.{ℕ, List, [], ◌∷◌}

abbrev pub word_input_type : List ℕ
word_input_type = 73 ∷ 110 ∷ 112 ∷ 117 ∷ 116 ∷ 84 ∷ 121 ∷ 112 ∷ 101 ∷ []

abbrev pub word_output_type : List ℕ
word_output_type = 79 ∷ 117 ∷ 116 ∷ 112 ∷ 117 ∷ 116 ∷ 84 ∷ 121 ∷ 112 ∷ 101 ∷ []

abbrev pub word_executable_name : List ℕ
word_executable_name =
    69 ∷ 120 ∷ 101 ∷ 99 ∷ 117 ∷ 116 ∷ 97 ∷ 98 ∷ 108 ∷ 101 ∷ 78 ∷ 97 ∷ 109 ∷ 101 ∷ []

abbrev pub word_worker_name : List ℕ
word_worker_name = 87 ∷ 111 ∷ 114 ∷ 107 ∷ 101 ∷ 114 ∷ 78 ∷ 97 ∷ 109 ∷ 101 ∷ []

abbrev pub word_file_field : List ℕ
word_file_field = 70 ∷ 105 ∷ 108 ∷ 101 ∷ []

abbrev pub word_file_format : List ℕ
word_file_format = 70 ∷ 105 ∷ 108 ∷ 101 ∷ 70 ∷ 111 ∷ 114 ∷ 109 ∷ 97 ∷ 116 ∷ []

abbrev pub word_tag : List ℕ
word_tag = 84 ∷ 97 ∷ 103 ∷ []

abbrev pub word_arguments : List ℕ
word_arguments = 65 ∷ 114 ∷ 103 ∷ 117 ∷ 109 ∷ 101 ∷ 110 ∷ 116 ∷ 115 ∷ []

abbrev pub word_environment : List ℕ
word_environment = 69 ∷ 110 ∷ 118 ∷ 105 ∷ 114 ∷ 111 ∷ 110 ∷ 109 ∷ 101 ∷ 110 ∷ 116 ∷ []

abbrev pub word_xml_word : List ℕ
word_xml_word = 88 ∷ 77 ∷ 76 ∷ []

abbrev pub word_json_word : List ℕ
word_json_word = 74 ∷ 83 ∷ 79 ∷ 78 ∷ []

abbrev pub word_bson_word : List ℕ
word_bson_word = 66 ∷ 83 ∷ 79 ∷ 78 ∷ []

abbrev pub word_self : List ℕ
word_self = 64 ∷ 83 ∷ 69 ∷ 76 ∷ 70 ∷ 64 ∷ []
